-- ===== src/Dnswire/Ends.antt =====
-- Results of crates/anago-core/src/dnswire.rs that come to an end: no loop goes on, no index is out
-- of bounds.
use anago.Prelude.{
  ℕ, ◌≡◌, refl, sym, subst, true, false, Bool, arith, nat_eq, list_eq, Result, ok, err, ◌>>=◌, ◌>>◌,
  guard,
}
use anago.Text.{Text}
use anago.Dnswire.{DnsError, fuel_ran_out, out_of_bounds}
use anago.Dnswire.Names.{Reads}

-- The result is one that the source has too, and a value is as `P` says.
unfoldable pub Ends {ℓ} : {A : Type ℓ} → (A → Type 0) → Result DnsError A → Type 0
Ends P (ok a) = P a
Ends P (err fuel_ran_out) = false ≡ true
Ends P (err out_of_bounds) = false ≡ true
Ends P (err e) = Unit

abbrev pub Any {ℓ} : {A : Type ℓ} → A → Type 0
Any a = Unit

pub ok-Ends : {A : Type 0} (P : A → Type 0) (a : A) → P a → Ends P (ok a)
unfolding Ends
ok-Ends P a h = h

pub bind-Ends :
    {A B : Type 0} (P : B → Type 0) (m : Result DnsError A) (f : A → Result DnsError B)
    → Ends Any m
    → ((a : A) → m ≡ ok a → Ends P (f a))
    → Ends P (m >>= f)
unfolding Ends
bind-Ends P (ok a) f h k = k a refl
bind-Ends P (err fuel_ran_out) f h k = h
bind-Ends P (err out_of_bounds) f h k = h
bind-Ends P (err e) f h k = tt

-- A value that is there is bound.
pub bound-Ends :
    {A B : Type 0} (P : B → Type 0) (m : Result DnsError A) (f : A → Result DnsError B)
    → (a : A) × (m ≡ ok a)
    → ((a : A) → m ≡ ok a → Ends P (f a))
    → Ends P (m >>= f)
bound-Ends P m f (a, e) k = subst (λ r. Ends P (r >>= f)) (sym e) (k a e)

pub map-Ends :
    {A : Type 0} (P Q : A → Type 0) (m : Result DnsError A)
    → Ends P m
    → ((a : A) → P a → Q a)
    → Ends Q m
unfolding Ends
map-Ends P Q (ok a) h k = k a h
map-Ends P Q (err fuel_ran_out) h k = h
map-Ends P Q (err out_of_bounds) h k = h
map-Ends P Q (err e) h k = tt

-- What holds of a value that comes first serves the rest.
pub chain-Ends :
    {A B : Type 0} (Q : A → Type 0) (P : B → Type 0) (m : Result DnsError A)
    (f : A → Result DnsError B)
    → Ends Q m
    → ((a : A) → Q a → Ends P (f a))
    → Ends P (m >>= f)
unfolding Ends
chain-Ends Q P (ok a) f h k = k a h
chain-Ends Q P (err fuel_ran_out) f h k = h
chain-Ends Q P (err out_of_bounds) f h k = h
chain-Ends Q P (err e) f h k = tt

abbrev pub is_source : DnsError → Bool
is_source fuel_ran_out = false
is_source out_of_bounds = false
is_source _ = true

pub err-Ends : {A : Type 0} (P : A → Type 0) (e : DnsError) → is_source e ≡ true → Ends P (err e)
unfolding Ends
err-Ends P fuel_ran_out h = absurd (ground arith)
err-Ends P out_of_bounds h = absurd (ground arith)
err-Ends P e h = tt

pub guard-Ends :
    {B : Type 0} (P : B → Type 0) (b : Bool) (e : DnsError) (m : Result DnsError B)
    → is_source e ≡ true
    → (b ≡ true → Ends P m)
    → Ends P (guard b e >> m)
guard-Ends P true e m h k = k refl
guard-Ends P false e m h k = err-Ends P e h

pub Reads-Ends : (start size : ℕ) (m : Result DnsError (Text × ℕ)) → Reads start size m → Ends Any m
unfolding Ends
Reads-Ends start size (ok (name, after)) h = tt
Reads-Ends start size (err e) h = h
