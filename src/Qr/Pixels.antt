-- ===== src/Qr/Pixels.antt =====
-- What a drawing (crates/anago-core/src/qr.rs) shows on a terminal: the code, its quiet zone, and
-- nothing that wraps.
use anago.Prelude.{
  ℕ, zero, suc, ◌≡◌, refl, ap, ◌∙◌, ◌<◌, ◌+◌, ◌*◌, ◌/◌, ◌%◌, inl, inr, Bool, true, false, [], ◌∷◌,
  ◌++◌, Option, none, some, ◌==◌, nat_eq, if◌then◌else◌, get_elem?, length, contains,
  contains-append, arith, length-append, drop, Bool-cases,
}
use anago.Text.{Text}
use anago.Qr.{
  Modules, Blocks, full, half, span, columns, rows, half_up, ink, reset, dark_at, push_each,
  full_cell, half_cell, full_line, half_line, draw_with,
}
use anago.Qr.Lines.{
  nth_line, line_feeds, contains-push_each, length-push_each, nth_line-push_each,
  line_feeds-push_each, get_elem?-push_one, get_elem?-push_two,
}

-- The character in a column of a line, behind the escape that sets the colours.
abbrev pub cell : Text → ℕ → ℕ → Option ℕ
cell t line column = get_elem? (drop (length ink) (nth_line line t)) column

-- What the upper and the lower half of a character show.
abbrev pub halves : ℕ → Option (Bool × Bool)
halves c =
    if c == 0x2588
    then some (true, true)
    else if c == 0x2580
    then some (true, false)
    else if c == 0x2584
    then some (false, true)
    else if c == b' '
    then some (false, false)
    else none

-- A module that is two characters wide is dark where both are.
abbrev pub wide : Option ℕ → Option ℕ → Option Bool
wide (some c) (some d) = elim (halves c) [
  | some (true, true) ↦ if c == d then some true else none
  | some (false, false) ↦ if c == d then some false else none
  | some other ↦ none
  | none ↦ none
]
wide other _ = none

abbrev pub upper : Option ℕ → Option Bool
upper none = none
upper (some c) = elim (halves c) [ none ↦ none | some h ↦ some h.0 ]

abbrev pub lower : Option ℕ → Option Bool
lower none = none
lower (some c) = elim (halves c) [ none ↦ none | some h ↦ some h.1 ]

-- What a drawing shows of the module in a column and a row.
abbrev pub pixel : Blocks → Text → ℕ → ℕ → Option Bool
pixel full t x y = wide (cell t y (x * 2)) (cell t y (suc (x * 2)))
pixel half t x y = if (y % 2) == 0 then upper (cell t (y / 2) x) else lower (cell t (y / 2) x)

abbrev full_char : Bool → ℕ
full_char true = 0x2588
full_char false = b' '

push_each-ext :
    (f g : ℕ → Text) (at n : ℕ) → ((i : ℕ) → f i ≡ g i) → push_each f at n ≡ push_each g at n
unfolding push_each
push_each-ext f g at zero h = refl
push_each-ext f g at (suc n) h = rw (h at, push_each-ext f g (suc at) n h) refl

full_cell-char : (b : Bool) → full_cell b ≡ full_char b ∷ full_char b ∷ []
full_cell-char true = refl
full_cell-char false = refl

full_cell-whole : (b : Bool) → (contains (full_cell b) b'\n' ≡ false) × (length (full_cell b) ≡ 2)
full_cell-whole true = (refl, refl)
full_cell-whole false = (refl, refl)

half_cell-whole : (a b : Bool) → contains (half_cell a b ∷ []) b'\n' ≡ false
half_cell-whole true true = refl
half_cell-whole true false = refl
half_cell-whole false true = refl
half_cell-whole false false = refl

wide-full_char : (b : Bool) → wide (some (full_char b)) (some (full_char b)) ≡ some b
wide-full_char true = refl
wide-full_char false = refl

half_cell-halves :
    (a b : Bool) → (upper (some (half_cell a b)) ≡ some a) × (lower (some (half_cell a b)) ≡ some b)
half_cell-halves true true = (refl, refl)
half_cell-halves true false = (refl, refl)
half_cell-halves false true = (refl, refl)
half_cell-halves false false = (refl, refl)

module _ (m : Modules) where
  full_line-whole : (y : ℕ) → contains (full_line m y) b'\n' ≡ false
  full_line-whole y =
      let cells = push_each (λ x. full_cell (dark_at m x y)) 0 (span m.size) in
      rw
        (
          contains-append cells reset b'\n',
          contains-push_each (λ x. full_cell (dark_at m x y)) b'\n' 0 (span m.size)
              (λ x. (full_cell-whole (dark_at m x y)).0),
        )
        refl

  half_line-whole : (pair : ℕ) → contains (half_line m pair) b'\n' ≡ false
  half_line-whole pair =
      let f : ℕ → Text =
        λ x. half_cell (dark_at m x (pair * 2)) (dark_at m x (pair * 2 + 1)) ∷ [] in
      rw
        (
          contains-append (push_each f 0 (span m.size)) reset b'\n',
          contains-push_each f b'\n' 0 (span m.size)
              (λ x. half_cell-whole (dark_at m x (pair * 2)) (dark_at m x (pair * 2 + 1))),
        )
        refl

  pub pixel-full :
      (x y : ℕ)
      → x < span m.size
      → y < span m.size
      → pixel full (draw_with m full) x y ≡ some (dark_at m x y)
  unfolding draw_with
  pixel-full x y hx hy =
      let c : ℕ → ℕ = λ i. full_char (dark_at m i y) in
      let shown : (k : ℕ)
          → cell (push_each (λ y. full_line m y ++ b'\n' ∷ []) 0 (span m.size)) y k
            ≡ get_elem? (push_each (λ i. c i ∷ c i ∷ []) 0 (span m.size) ++ reset) k =
        λ k.
          ap (λ l. get_elem? (drop (length ink) l) k)
            (nth_line-push_each (full_line m) full_line-whole (span m.size) y hy)
          ∙ ap (λ l. get_elem? (l ++ reset) k)
              (push_each-ext (λ i. full_cell (dark_at m i y)) (λ i. c i ∷ c i ∷ []) 0 (span m.size)
                (λ i. full_cell-char (dark_at m i y))) in
      let two = get_elem?-push_two c reset (span m.size) x hx in
      rw (shown (x * 2) ∙ two.0, shown (suc (x * 2)) ∙ two.1) (wide-full_char (dark_at m x y))

  pub pixel-half :
      (x y : ℕ)
      → x < span m.size
      → y < span m.size
      → pixel half (draw_with m half) x y ≡ some (dark_at m x y)
  unfolding draw_with
  pixel-half x y hx hy =
      let pair = y / 2 in
      let inside : pair < half_up (span m.size) = omega arith in
      let shown : cell
            (push_each (λ pair. half_line m pair ++ b'\n' ∷ []) 0 (half_up (span m.size))) pair x
          ≡ some (half_cell (dark_at m x (pair * 2)) (dark_at m x (pair * 2 + 1))) =
        ap (λ l. get_elem? (drop (length ink) l) x)
          (nth_line-push_each (half_line m) half_line-whole (half_up (span m.size)) pair inside)
        ∙ get_elem?-push_one (λ i. half_cell (dark_at m i (pair * 2)) (dark_at m i (pair * 2 + 1)))
            reset (span m.size) x hx in
      let shades = half_cell-halves (dark_at m x (pair * 2)) (dark_at m x (pair * 2 + 1)) in
      elim (Bool-cases ((y % 2) == 0)) [
        | inl even ↦
            let at : pair * 2 ≡ y = ground arith in
            rw (even, shown) (shades.0 ∙ ap (λ k. some (dark_at m x k)) at)
        | inr odd ↦
            let at : pair * 2 + 1 ≡ y = ground arith in
            rw (odd, shown) (shades.1 ∙ ap (λ k. some (dark_at m x k)) at)
      ]

  -- What a line takes up beside the two escapes.
  full_line-length :
      (y : ℕ) → length (full_line m y) ≡ columns m.size full + length ink + length reset
  full_line-length y =
      let f : ℕ → Text = λ x. full_cell (dark_at m x y) in
      ground (
        arith,
        length-append (push_each f 0 (span m.size)) reset,
        length-push_each f 2 0 (span m.size) (λ x. (full_cell-whole (dark_at m x y)).1),
      )

  half_line-length :
      (pair : ℕ) → length (half_line m pair) ≡ columns m.size half + length ink + length reset
  half_line-length pair =
      let f : ℕ → Text =
        λ x. half_cell (dark_at m x (pair * 2)) (dark_at m x (pair * 2 + 1)) ∷ [] in
      ground (
        arith,
        length-append (push_each f 0 (span m.size)) reset,
        length-push_each f 1 0 (span m.size) (λ x. refl),
      )

  pub draw_with-pixel :
      (b : Blocks) (x y : ℕ)
      → x < span m.size
      → y < span m.size
      → pixel b (draw_with m b) x y ≡ some (dark_at m x y)
  draw_with-pixel full x y = pixel-full x y
  draw_with-pixel half x y = pixel-half x y

  pub draw_with-lines : (b : Blocks) → line_feeds (draw_with m b) ≡ rows m.size b
  unfolding draw_with
  draw_with-lines full = line_feeds-push_each (full_line m) full_line-whole 0 (span m.size)
  draw_with-lines half =
      line_feeds-push_each (half_line m) half_line-whole 0 (half_up (span m.size))

  pub draw_with-columns :
      (b : Blocks) (r : ℕ)
      → r < rows m.size b
      → length (nth_line r (draw_with m b)) ≡ columns m.size b + length ink + length reset
  unfolding draw_with
  draw_with-columns full r h =
      ap length (nth_line-push_each (full_line m) full_line-whole (span m.size) r h)
      ∙ full_line-length r
  draw_with-columns half r h =
      ap length (nth_line-push_each (half_line m) half_line-whole (half_up (span m.size)) r h)
      ∙ half_line-length r
