-- ===== src/Dnswire/Total.antt =====
-- What is read of an answer (crates/anago-core/src/dnswire.rs), against the layout of a message.
use anago.Prelude.{
  ℕ, zero, suc, ◌+◌, ◌*◌, ◌≤◌, ◌<◌, ◌≡◌, refl, sym, ap, subst, ◌∙◌, true, not, ◌&&◌, List, [], ◌∷◌,
  ◌++◌, some, arith, nat_eq, list_eq, list_beq_iff, ◌==◌, ltb, bit_and, length, get_elem?-some, ok,
  Bool-cases, Option-cases, Result-cases, inl, inr,
}
use mathlib.Core.List.{append-nil, append_assoc}
use anago.Text.{Text}
use anago.Dnswire.{
  short_header, not_our_question, not_answer, question_end, Bytes, slice, read_name, header_len,
}
use anago.Dnswire.Ends.{
  Ends, Any, ok-Ends, bind-Ends, bound-Ends, map-Ends, chain-Ends, guard-Ends, Reads-Ends,
}
use anago.Dnswire.Layout.{
  Questions, asked, question, IsRecord, Records, done, header_cut, data_cut, held, passed,
  Describes,
}
use anago.Dnswire.Names.{read_name-Reads}
use anago.Dnswire.Answer.{
  byte_at, u16_at, read_character_strings, skip_name, skip_questions, record_values, read_answers,
  read_txt, fold,
}

module _ (lossy : Bytes → Text) where
  module _ (message : Bytes) where
    byte_at-some : (at : ℕ) → at < length message → (b : ℕ) × (byte_at message at ≡ ok b)
    unfolding byte_at
    byte_at-some at h = let (b, e) = get_elem?-some message at h in (b, rw e refl)

    u16_at-some : (at : ℕ) → at + 2 ≤ length message → (n : ℕ) × (u16_at message at ≡ ok n)
    unfolding u16_at
    u16_at-some at h =
        let (high, e) = byte_at-some at (omega arith) in
        let (low, f) = byte_at-some (at + 1) (omega arith) in (high * 256 + low, rw (e, f) refl)

    name-Ends : (at : ℕ) → Ends Any (read_name lossy message at)
    name-Ends at =
        Reads-Ends at (length message) (read_name lossy message at)
          (read_name-Reads lossy message at)

    skip_name-ok :
        (at : ℕ) {after : ℕ}
        → skip_name lossy message at ≡ ok after
        → (name : Text) × (read_name lossy message at ≡ ok (name, after))
    unfolding skip_name
    skip_name-ok at {after} h = elim (Result-cases (read_name lossy message at)) [
      | inr (e, bad) ↦ absurd (ground arith)
      | inl ((name, to), good) ↦
          let same : to ≡ after = ground arith in (name, good ∙ ap (λ k. ok (name, k)) same)
    ]

    name_skip-Ends : (at : ℕ) → Ends Any (skip_name lossy message at)
    unfolding skip_name
    name_skip-Ends at =
        bind-Ends Any (read_name lossy message at) _ (name-Ends at) (λ r e. ok-Ends Any r.1 tt)

    questions-Ends :
        (n at : ℕ)
        → Ends (λ to. Questions lossy message n at to) (skip_questions lossy message n at)
    unfolding skip_questions
    questions-Ends zero at = ok-Ends _ at (asked at)
    questions-Ends (suc n) at =
        bind-Ends _ (skip_name lossy message at) _ (name_skip-Ends at) (λ after skipped.
          guard-Ends _ (not (ltb (length message) (after + 4))) question_end _ refl (λ fits.
            let (name, found) = skip_name-ok at skipped in
            let inside : after + 4 ≤ length message = ground arith in
            map-Ends _ _ (skip_questions lossy message n (after + 4)) (questions-Ends n (after + 4))
              (λ to rest. question n at name after to found inside rest)))

    record_values-Records :
        (wanted : Text) (n at : ℕ) (owner : Text) (after kind class len : ℕ) (data_bytes : Bytes)
        (values all found : List Text)
        → IsRecord lossy message at owner after kind class len
        → slice message (after + 10) (after + 10 + len) ≡ some data_bytes
        → all ≡ record_values lossy message wanted owner kind class data_bytes values ++ found
        → Records lossy message wanted n (after + 10 + len) found
        → (more : List Text) × (all ≡ values ++ more) × Records lossy message wanted (suc n) at more
    record_values-Records wanted n at owner after kind class len data_bytes values all found r s h
          rest =
        elim (Bool-cases ((kind == 16) && (class == 1) && (fold owner == wanted))) [
          | inl is ↦
              let text = read_character_strings lossy data_bytes in
              let same : all ≡ (values ++ text ∷ []) ++ found = rw is at h in
              (
                text ∷ found,
                same ∙ append_assoc values (text ∷ []) found,
                held n at owner after kind class len data_bytes found r
                    (ground arith, ground arith, ground (arith, list_beq_iff (fold owner) wanted)) s
                    rest,
              )
          | inr other ↦
              let same : all ≡ values ++ found = rw other at h in
              (
                found,
                same,
                passed n at owner after kind class len found r
                    (λ w. ground (arith, list_beq_iff (fold owner) wanted, w)) (ground arith) rest,
              )
        ]

    answers-Ends :
        (wanted : Text) (n at : ℕ) (values : List Text)
        → Ends
            (λ all.
              (found : List Text) × (all ≡ values ++ found)
              × Records lossy message wanted n at found)
            (read_answers lossy message wanted n at values)
    unfolding read_answers
    answers-Ends wanted zero at values = ok-Ends _ values ([], sym (append-nil values), done at)
    answers-Ends wanted (suc n) at values =
        bind-Ends _ (read_name lossy message at) _ (name-Ends at) (λ (owner, after) named.
          elim (Bool-cases (ltb (length message) (after + 10))) [
            | inl cut ↦ rw cut (
                ok-Ends _ values
                  ([], sym (append-nil values), header_cut n at owner after named (ground arith)))
            | inr whole ↦
                let fits : after + 10 ≤ length message = ground arith in
                rw whole (
                  bound-Ends _ (u16_at message after) _ (u16_at-some after (omega (arith, fits)))
                    (λ kind k.
                      bound-Ends _ (u16_at message (after + 2)) _
                        (u16_at-some (after + 2) (omega (arith, fits)))
                        (λ class c.
                          bound-Ends _ (u16_at message (after + 8)) _
                            (u16_at-some (after + 8) (omega (arith, fits)))
                            (λ len l.
                              let r : IsRecord lossy message at owner after kind class len =
                                (named, fits, k, c, l) in
                              elim (Option-cases (slice message (after + 10) (after + 10 + len))) [
                                | inl e ↦ rw e (
                                    ok-Ends _ values (
                                      [],
                                      sym (append-nil values),
                                      data_cut n at owner after kind class len r (ground arith),
                                    ))
                                | inr (data_bytes, e) ↦ rw e (
                                    map-Ends _ _
                                      (read_answers lossy message wanted n (after + 10 + len) (
                                        record_values lossy message wanted owner kind class
                                          data_bytes values))
                                      (answers-Ends wanted n (after + 10 + len) (
                                        record_values lossy message wanted owner kind class
                                          data_bytes values))
                                      (λ all (found, same, rest).
                                        record_values-Records wanted n at owner after kind class len
                                          data_bytes values all found r e same rest))
                              ]))))
          ])

    same_id : (m n : ℕ) → (m == n) ≡ true → m ≡ n
    same_id m n h = ground arith

    -- Every message is read to a reply or to an error of the source, whatever counts and pointers it
    -- holds: no loop goes on and no index lies beyond the message. A reply stands in a message with
    -- the id asked for that is marked as an answer. Its code and its mark of truncation are those of
    -- the header, and its values are the texts of the TXT records of class IN that the name asked
    -- for owns, all of them and in their order, as far as the message holds whole records.
    pub read_txt-Ends :
        (id : ℕ) (name : Text)
        → Ends (Describes lossy message id name) (read_txt lossy message id name)
    unfolding read_txt
    read_txt-Ends id name =
        guard-Ends _ (not (ltb (length message) header_len)) short_header _ refl (λ long.
          let header : header_len ≤ length message = ground arith in
          bound-Ends _ (u16_at message 0) _ (u16_at-some 0 (omega (arith, header))) (λ asked_id i.
            guard-Ends _ (asked_id == id) not_our_question _ refl (λ ours.
              bound-Ends _ (byte_at message 2) _ (byte_at-some 2 (omega (arith, header)))
                (λ flags f.
                  guard-Ends _ (not (bit_and flags 0x80 == 0)) not_answer _ refl (λ response.
                    bound-Ends _ (byte_at message 3) _ (byte_at-some 3 (omega (arith, header)))
                      (λ codes c.
                        bound-Ends _ (u16_at message 4) _ (u16_at-some 4 (omega (arith, header)))
                          (λ questions q.
                            bound-Ends _ (u16_at message 6) _
                              (u16_at-some 6 (omega (arith, header)))
                              (λ answers a.
                                chain-Ends _ _ (skip_questions lossy message questions header_len) _
                                  (questions-Ends questions header_len)
                                  (λ at skipped.
                                    chain-Ends _ _
                                      (read_answers lossy message (fold name) answers at []) _
                                      (answers-Ends (fold name) answers at [])
                                      (λ all (found, same, values). ok-Ends _ _ (record {
                                        flags = flags;
                                        codes = codes;
                                        questions = questions;
                                        answers = answers;
                                        at = at;
                                        header = header;
                                        id_eq = i ∙ ap ok (same_id asked_id id ours);
                                        flags_eq = f;
                                        codes_eq = c;
                                        questions_eq = q;
                                        answers_eq = a;
                                        response = ground arith;
                                        truncated_eq = refl;
                                        rcode_eq = refl;
                                        skipped = skipped;
                                        values_eq =
                                            subst (Records lossy message (fold name) answers at)
                                              (sym same) values;
                                      })))))))))))
