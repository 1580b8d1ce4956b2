-- ===== src/Qr/Lines.antt =====
-- The lines of a drawing (crates/anago-core/src/qr.rs), and the characters of a line.
use mathlib.Core.List.{append_assoc}
use anago.Prelude.{
  ℕ, zero, suc, ◌≡◌, refl, ap, ◌∙◌, ◌<◌, ◌+◌, ◌*◌, false, [], ◌∷◌, ◌++◌, some, ◌==◌, nat_eq,
  if◌then◌else◌, get_elem?, length, contains, contains-append, arith, length-append,
}
use anago.Text.{Text}
use anago.Qr.{push_each}

-- The text before the first line feed, and behind it.
abbrev pub first_line : Text → Text
first_line [] = []
first_line (c ∷ cs) = if c == b'\n' then [] else c ∷ first_line cs

abbrev pub other_lines : Text → Text
other_lines [] = []
other_lines (c ∷ cs) = if c == b'\n' then cs else other_lines cs

abbrev pub nth_line : ℕ → Text → Text
nth_line zero t = first_line t
nth_line (suc r) t = nth_line r (other_lines t)

abbrev pub line_feeds : Text → ℕ
line_feeds [] = 0
line_feeds (c ∷ cs) = if c == b'\n' then suc (line_feeds cs) else line_feeds cs

first_line-append : (l t : Text) → contains l b'\n' ≡ false → first_line (l ++ b'\n' ∷ t) ≡ l
first_line-append [] t h = refl
first_line-append (c ∷ cs) t h = ground (arith, first_line-append cs t)

other_lines-append : (l t : Text) → contains l b'\n' ≡ false → other_lines (l ++ b'\n' ∷ t) ≡ t
other_lines-append [] t h = refl
other_lines-append (c ∷ cs) t h = ground (arith, other_lines-append cs t)

line_feeds-append :
    (l t : Text) → contains l b'\n' ≡ false → line_feeds (l ++ b'\n' ∷ t) ≡ suc (line_feeds t)
line_feeds-append [] t h = refl
line_feeds-append (c ∷ cs) t h = ground (arith, line_feeds-append cs t)

pub contains-push_each :
    (f : ℕ → Text) (c at n : ℕ)
    → ((i : ℕ) → contains (f i) c ≡ false)
    → contains (push_each f at n) c ≡ false
unfolding push_each
contains-push_each f c at zero h = refl
contains-push_each f c at (suc n) h =
    rw (contains-append (f at) (push_each f (suc at) n) c, h at)
      (contains-push_each f c (suc at) n h)

pub length-push_each :
    (f : ℕ → Text) (k at n : ℕ) → ((i : ℕ) → length (f i) ≡ k) → length (push_each f at n) ≡ n * k
unfolding push_each
length-push_each f k at zero h = ground arith
length-push_each f k at (suc n) h =
    ground (
      arith,
      length-append (f at) (push_each f (suc at) n),
      h at,
      length-push_each f k (suc at) n h,
    )

module _ (f : ℕ → Text) (whole : (i : ℕ) → contains (f i) b'\n' ≡ false) where
  nth_line-push_each_from :
      (at n r : ℕ) → r < n → nth_line r (push_each (λ y. f y ++ b'\n' ∷ []) at n) ≡ f (at + r)
  unfolding push_each
  nth_line-push_each_from at zero r h = absurd (omega arith)
  nth_line-push_each_from at (suc n) zero h =
      rw (append_assoc (f at) (b'\n' ∷ []) (push_each (λ y. f y ++ b'\n' ∷ []) (suc at) n)) (
        first_line-append (f at) (push_each (λ y. f y ++ b'\n' ∷ []) (suc at) n) (whole at)
        ∙ ap f (omega arith))
  nth_line-push_each_from at (suc n) (suc r) h =
      let tail = push_each (λ y. f y ++ b'\n' ∷ []) (suc at) n in
      ap (λ t. nth_line r (other_lines t)) (append_assoc (f at) (b'\n' ∷ []) tail)
      ∙ ap (nth_line r) (other_lines-append (f at) tail (whole at))
      ∙ nth_line-push_each_from (suc at) n r (omega arith)
      ∙ ap f (omega arith)

  pub nth_line-push_each :
      (n r : ℕ) → r < n → nth_line r (push_each (λ y. f y ++ b'\n' ∷ []) 0 n) ≡ f r
  nth_line-push_each n r h = nth_line-push_each_from 0 n r h ∙ ap f (omega arith)

  pub line_feeds-push_each : (at n : ℕ) → line_feeds (push_each (λ y. f y ++ b'\n' ∷ []) at n) ≡ n
  unfolding push_each
  line_feeds-push_each at zero = refl
  line_feeds-push_each at (suc n) =
      let tail = push_each (λ y. f y ++ b'\n' ∷ []) (suc at) n in
      ap line_feeds (append_assoc (f at) (b'\n' ∷ []) tail)
      ∙ line_feeds-append (f at) tail (whole at)
      ∙ ap suc (line_feeds-push_each (suc at) n)

-- Where each turn pushes one character, or two.
get_elem?-push_one_from :
    (f : ℕ → ℕ) (t : Text) (at n x : ℕ)
    → x < n
    → get_elem? (push_each (λ i. f i ∷ []) at n ++ t) x ≡ some (f (at + x))
unfolding push_each
get_elem?-push_one_from f t at zero x h = absurd (omega arith)
get_elem?-push_one_from f t at (suc n) zero h = ap (λ i. some (f i)) (omega arith)
get_elem?-push_one_from f t at (suc n) (suc x) h =
    get_elem?-push_one_from f t (suc at) n x (omega arith) ∙ ap (λ i. some (f i)) (omega arith)

get_elem?-push_two_from :
    (f : ℕ → ℕ) (t : Text) (at n x : ℕ)
    → x < n
    → (get_elem? (push_each (λ i. f i ∷ f i ∷ []) at n ++ t) (x * 2) ≡ some (f (at + x)))
      × (get_elem? (push_each (λ i. f i ∷ f i ∷ []) at n ++ t) (suc (x * 2)) ≡ some (f (at + x)))
unfolding push_each
get_elem?-push_two_from f t at zero x h = absurd (omega arith)
get_elem?-push_two_from f t at (suc n) zero h =
    (ap (λ i. some (f i)) (omega arith), ap (λ i. some (f i)) (omega arith))
get_elem?-push_two_from f t at (suc n) (suc x) h =
    let rest = get_elem?-push_two_from f t (suc at) n x (omega arith) in
    let moved : some (f (suc at + x)) ≡ some (f (at + suc x)) =
      ap (λ i. some (f i)) (omega arith) in
    let twice : suc x * 2 ≡ suc (suc (x * 2)) = omega arith in
    rw twice (rest.0 ∙ moved, rest.1 ∙ moved)

pub get_elem?-push_one :
    (f : ℕ → ℕ) (t : Text) (n x : ℕ)
    → x < n
    → get_elem? (push_each (λ i. f i ∷ []) 0 n ++ t) x ≡ some (f x)
get_elem?-push_one f t n x h =
    get_elem?-push_one_from f t 0 n x h ∙ ap (λ i. some (f i)) (omega arith)

pub get_elem?-push_two :
    (f : ℕ → ℕ) (t : Text) (n x : ℕ)
    → x < n
    → (get_elem? (push_each (λ i. f i ∷ f i ∷ []) 0 n ++ t) (x * 2) ≡ some (f x))
      × (get_elem? (push_each (λ i. f i ∷ f i ∷ []) 0 n ++ t) (suc (x * 2)) ≡ some (f x))
get_elem?-push_two f t n x h =
    let two = get_elem?-push_two_from f t 0 n x h in
    let zero_add : some (f (0 + x)) ≡ some (f x) = ap (λ i. some (f i)) (omega arith) in
    (two.0 ∙ zero_add, two.1 ∙ zero_add)
