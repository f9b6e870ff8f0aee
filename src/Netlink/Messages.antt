-- ===== src/Netlink/Messages.antt =====
-- What the loop of `netlink` returns.
use mathlib.Core.List.{append-nil, append_assoc}
use xdp_rs.Prelude.{
  ap, sym, none, some, ◌+◌, ℕ, zero, suc, ◌≤◌, ◌<◌, ◌≡◌, refl, arith, false, Option, ◌||◌, List, [],
  ◌∷◌, ◌++◌, done, Result, ok, err, IoError, other, length, length-append, ltb, ◌==◌, Bool-cases,
  Result-cases, ◌⊎◌, inl, inr, ◌∙◌,
}
use xdp_rs.Netlink.{slice_from, push, round, loop}

abbrev pub concat_map : {M : Type 0} → (M → List ℕ) → List M → List ℕ
concat_map encode [] = []
concat_map encode (m ∷ ms) = encode m ++ concat_map encode ms

-- A slice within the buffer does not panic.
pub slice_from_lem :
    (n : ℕ) (buffer : List ℕ)
    → n ≤ length buffer
    → (rest : List ℕ) × (slice_from n buffer ≡ done rest) × (length rest + n ≡ length buffer)
slice_from_lem zero buffer h = (buffer, refl, omega arith)
slice_from_lem (suc n) [] h = absurd (omega arith)
slice_from_lem (suc n) (x ∷ buffer) h =
    let r = slice_from_lem n buffer (omega arith) in (r.0, r.1, omega (arith, r.2))

slice_from-append : (xs ys : List ℕ) → slice_from (length xs) (xs ++ ys) ≡ done ys
slice_from-append [] ys = refl
slice_from-append (x ∷ xs) ys = slice_from-append xs ys

module _ {M R : Type 0} (deserialize : List ℕ → Result M IoError) (msg_len : M → ℕ)
    (f : M → Result (Option R) IoError) where
  pub shorter :
      (x : ℕ) (buffer : List ℕ) (result : List R)
      → ((e : IoError) × (round deserialize msg_len f (x ∷ buffer) result ≡ done (err e)))
        ⊎ ((next : List R × List ℕ) × (round deserialize msg_len f (x ∷ buffer) result
              ≡ done (ok next))
            × (length (next.1) < suc (length buffer)))
  shorter x buffer result = elim (Result-cases (deserialize (x ∷ buffer))) [
    | inr (e, bad) ↦ inl (e, rw bad)
    | inl (msg, read) ↦ elim (Result-cases (f msg)) [
      | inr (e, refused) ↦ inl (e, rw (read, refused))
      | inl (r, taken) ↦
          elim (Bool-cases (msg_len msg == 0 || ltb (suc (length buffer)) (msg_len msg))) [
            | inl odd ↦ inl (
              other "Received a malformed netlink message (invalid length)",
              rw (read, taken, odd),
            )
            | inr good ↦
                let sliced = slice_from_lem (msg_len msg) (x ∷ buffer) (ground arith) in
                inr (
                  (push deserialize msg_len f result r, sliced.0),
                  rw (read, taken, good, sliced.1),
                  ground (arith, sliced.2),
                )
          ]
    ]
  ]

  -- The loop ends: whatever the bytes are and however the closure answers, as many rounds as there are
  -- bytes are enough, since a message of length 0 is refused.
  pub loop_ends :
      (fuel : ℕ) (buffer : List ℕ) (result : List R)
      → length buffer ≤ fuel
      → (r : Result (List R) IoError) × (loop deserialize msg_len f fuel buffer result ≡ done r)
  unfolding loop
  loop_ends fuel [] result h = (ok result, refl)
  loop_ends zero (x ∷ buffer) result h = absurd (omega arith)
  loop_ends (suc fuel) (x ∷ buffer) result h = elim (shorter x buffer result) [
    | inl (e, failed) ↦ rw (loop, failed) (err e, refl)
    | inr (next, went, less) ↦
        rw (loop, went) (loop_ends fuel (next.1) (next.0) (omega (arith, less)))
  ]

  -- The results of the closure on the messages, in order, or its first error.
  abbrev pub added : Option R → Result (List R) IoError → Result (List R) IoError
  added o (err e) = err e
  added none (ok rs) = ok rs
  added (some r) (ok rs) = ok (r ∷ rs)

  abbrev pub answers : List M → Result (List R) IoError
  answers [] = ok []
  answers (m ∷ ms) = let later = answers ms in elim (f m) [ err e ↦ err e | ok o ↦ added o later ]

  -- The same, behind earlier results.
  abbrev behind : List R → Result (List R) IoError → Result (List R) IoError
  behind result (err e) = err e
  behind result (ok rs) = ok (result ++ rs)

  behind-push :
      (result : List R) (o : Option R) (later : Result (List R) IoError)
      → behind (push deserialize msg_len f result o) later ≡ behind result (added o later)
  behind-push result o (err e) = refl
  behind-push result none (ok rs) = refl
  behind-push result (some r) (ok rs) = ap ok (append_assoc result (r ∷ []) rs)

  behind_none : (later : Result (List R) IoError) → behind [] later ≡ later
  behind_none (err e) = refl
  behind_none (ok rs) = refl

  loop_done :
      (fuel : ℕ) (result : List R) → loop deserialize msg_len f fuel [] result ≡ done (ok result)
  unfolding loop
  loop_done zero result = refl
  loop_done (suc fuel) result = refl

  loop_next :
      (fuel : ℕ) (buffer : List ℕ) (result : List R) (next : List R × List ℕ)
      → 0 < length buffer
      → round deserialize msg_len f buffer result ≡ done (ok next)
      → loop deserialize msg_len f (suc fuel) buffer result
        ≡ loop deserialize msg_len f fuel (next.1) (next.0)
  unfolding loop
  loop_next fuel [] result next h e = absurd (omega arith)
  loop_next fuel (x ∷ buffer) result next h e = rw (loop, e)

  loop_stop :
      (fuel : ℕ) (buffer : List ℕ) (result : List R) (e : IoError)
      → 0 < length buffer
      → round deserialize msg_len f buffer result ≡ done (err e)
      → loop deserialize msg_len f (suc fuel) buffer result ≡ done (err e)
  unfolding loop
  loop_stop fuel [] result e h failed = absurd (omega arith)
  loop_stop fuel (x ∷ buffer) result e h failed = rw (loop, failed)

  loop-behind :
      (encode : M → List ℕ) (fuel : ℕ) (ms : List M) (result : List R)
      → ((m : M) (rest : List ℕ) → deserialize (encode m ++ rest) ≡ ok m)
      → ((m : M) → msg_len m ≡ length (encode m))
      → ((m : M) → 0 < length (encode m))
      → length ms ≤ fuel
      → loop deserialize msg_len f fuel (concat_map encode ms) result
        ≡ done (behind result (answers ms))
  loop-behind encode fuel [] result decodes header positive h =
      loop_done fuel result ∙ ap (λ l. done (ok l)) (sym (append-nil result))
  loop-behind encode zero (m ∷ ms) result decodes header positive h = absurd (omega arith)
  loop-behind encode (suc fuel) (m ∷ ms) result decodes header positive h =
      elim (Result-cases (f m)) [
        | inr (e, refused) ↦
            let failed : round deserialize msg_len f (encode m ++ rest) result ≡ done (err e) =
              rw (decodes m rest, refused) in
            loop_stop fuel (encode m ++ rest) result e some_left failed ∙ rw (answers, refused)
        | inl (r, taken) ↦
            let next : List R × List ℕ = (push deserialize msg_len f result r, rest) in
            let went : round deserialize msg_len f (encode m ++ rest) result ≡ done (ok next) =
              rw (decodes m rest, taken, good, header m, slice_from-append (encode m) rest) in
            loop_next fuel (encode m ++ rest) result next some_left went
            ∙ (loop-behind encode fuel ms (push deserialize msg_len f result r) decodes header
                  positive (omega arith)
                ∙ (ap done (behind-push result r (answers ms)) ∙ rw (answers, taken) refl))
      ]
    where
      rest : List ℕ
      rest = concat_map encode ms

      some_left : 0 < length (encode m ++ rest)
      some_left = omega (arith, positive m, length-append (encode m) rest)

      good : (msg_len m == 0 || ltb (length (encode m ++ rest)) (msg_len m)) ≡ false
      good = ground (arith, positive m, header m, length-append (encode m) rest)

  -- Of a buffer that holds messages one after another, without padding, where decoding gives the
  -- message in front and its header has its length in bytes, the loop of `netlink` takes every message
  -- in order, and its result is the list of what the closure makes of them, in their order and without
  -- those it skips, or the closure's first error. It has a round for each message.
  pub loop_collects :
      (encode : M → List ℕ) (fuel : ℕ) (ms : List M)
      → ((m : M) (rest : List ℕ) → deserialize (encode m ++ rest) ≡ ok m)
      → ((m : M) → msg_len m ≡ length (encode m))
      → ((m : M) → 0 < length (encode m))
      → length ms ≤ fuel
      → loop deserialize msg_len f fuel (concat_map encode ms) [] ≡ done (answers ms)
  loop_collects encode fuel ms decodes header positive h =
      loop-behind encode fuel ms [] decodes header positive h ∙ ap done (behind_none (answers ms))
