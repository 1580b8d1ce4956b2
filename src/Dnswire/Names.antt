-- ===== src/Dnswire/Names.antt =====
-- Reading a name from a DNS message (crates/anago-core/src/dnswire.rs) ends, and stays inside the
-- message.
use anago.Prelude.{
  ℕ, zero, suc, ◌+◌, ◌-◌, ◌*◌, ◌≤◌, ◌<◌, ◌≡◌, true, false, [], Option, none, some, arith, bit_and,
  ltb, nat_eq, ◌==◌, length, get_elem?, get_elem?-lt, Result, ok, err, Option-cases, Bool-cases,
  inl, inr,
}
use anago.Text.{Text}
use anago.Dnswire.{
  DnsError, fuel_ran_out, out_of_bounds, Bytes, max_jumps, slice, or_at, name_loop, name_fuel,
  read_name,
}

-- A name is read with an offset behind its first byte and inside the message, or refused by an
-- error of the source.
abbrev pub Reads : ℕ → ℕ → Result DnsError (Text × ℕ) → Type 0
Reads start size (ok (name, after)) = (start < after) × (after ≤ size)
Reads start size (err fuel_ran_out) = false ≡ true
Reads start size (err out_of_bounds) = false ≡ true
Reads start size (err e) = Unit

slice-le :
    (message : Bytes) (from to : ℕ) {s : Bytes}
    → slice message from to ≡ some s
    → to ≤ length message
slice-le message from to h = ground arith

module _ (lossy : Bytes → Text) (message : Bytes) where
  -- What is left to do: pointers still allowed, each with a walk, and the walk under way.
  abbrev work : ℕ → ℕ → ℕ
  work jumps at = (max_jumps + 1 - jumps) * (length message + 2) + (length message - at)

  -- The offset after a name, once a pointer has fixed it, and the walk before that.
  abbrev Fixed : ℕ → Option ℕ → ℕ → Type 0
  Fixed start none at = start ≤ at
  Fixed start (some after) at = (start < after) × (after ≤ length message)

  product : (m c : ℕ) → (m + 1) * c ≡ m * c + c
  product m c = omega arith

  work-jump :
      (jumps at next : ℕ) → jumps + 1 ≤ max_jumps → suc (work (jumps + 1) next) ≤ work jumps at
  work-jump jumps at next k =
      let m = max_jumps + 1 - (jumps + 1) in
      let e : max_jumps + 1 - jumps ≡ m + 1 = omega arith in
      rw (e, product m (length message + 2)) (omega arith)

  Fixed-after :
      (start at by : ℕ) (after : Option ℕ)
      → Fixed start after at
      → 0 < by
      → at + by ≤ length message
      → (start < or_at after (at + by)) × (or_at after (at + by) ≤ length message)
  Fixed-after start at by none h k l = (omega arith, l)
  Fixed-after start at by (some after) h k l = h

  Fixed-later :
      (start at by : ℕ) (after : Option ℕ) → Fixed start after at → Fixed start after (at + by)
  Fixed-later start at by none h = omega arith
  Fixed-later start at by (some after) h = h

  name_loop-Reads :
      (f start : ℕ) (name : Text) (at : ℕ) (after : Option ℕ) (jumps : ℕ)
      → work jumps at < f
      → jumps ≤ max_jumps
      → Fixed start after at
      → Reads start (length message) (name_loop lossy message f name at after jumps)
  unfolding name_loop
  name_loop-Reads zero start name at after jumps w j h = elim w [ ]
  name_loop-Reads (suc f) start name at after jumps w j h =
      elim (Option-cases (get_elem? message at)) [
        | inl e ↦ rw (name_loop, e) tt
        | inr (len, e) ↦ elim (Bool-cases (bit_and len 0xc0 == 0)) [
          | inl plain ↦ elim (Bool-cases (len == 0)) [
            | inl z ↦
                rw (name_loop, e, plain, z)
                  (Fixed-after start at 1 after h (omega arith)
                    (omega (arith, get_elem?-lt message at e)))
            | inr nz ↦ elim (Option-cases (slice message (at + 1) (at + 1 + len))) [
              | inl s ↦ rw (name_loop, e, plain, nz, s) tt
              | inr (label, s) ↦
                  rw (name_loop, e, plain, nz, s)
                    (name_loop-Reads f start _ (at + 1 + len) after jumps
                      (omega (
                        arith,
                        get_elem?-lt message at e,
                        slice-le message (at + 1) (at + 1 + len) s,
                      ))
                      j (Fixed-later start (at + 1) len after (Fixed-later start at 1 after h)))
            ]
          ]
          | inr other ↦ elim (Bool-cases (bit_and len 0xc0 == 0xc0)) [
            | inl pointer ↦ elim (Option-cases (get_elem? message (at + 1))) [
              | inl s ↦ rw (name_loop, e, other, pointer, s) tt
              | inr (low, s) ↦ elim (Bool-cases (ltb max_jumps (jumps + 1))) [
                | inl t ↦ rw (name_loop, e, other, pointer, s, t) tt
                | inr t ↦
                    let small : jumps + 1 ≤ max_jumps = ground arith in
                    rw (name_loop, e, other, pointer, s, t)
                      (name_loop-Reads f start name _ _ (jumps + 1)
                        (omega (arith, work-jump jumps at (bit_and len 0x3f * 256 + low) small))
                        small
                        (Fixed-after start at 2 after h (omega arith)
                          (omega (arith, get_elem?-lt message (at + 1) s))))
              ]
            ]
            | inr bad ↦ rw (name_loop, e, other, bad) tt
          ]
        ]
      ]

  -- Whatever the message and the offset, a name is read with the fuel given, though pointers may
  -- lead anywhere: it ends with an offset behind the start and inside the message, or with an error.
  pub read_name-Reads : (start : ℕ) → Reads start (length message) (read_name lossy message start)
  unfolding read_name
  read_name-Reads start =
      name_loop-Reads (name_fuel lossy message) start [] start none 0 (omega arith) (omega arith)
        (omega arith)
