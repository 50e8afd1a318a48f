-- ===== src/Requests/PendingResponse/Reassembly.antt =====
-- The chunks of a response, in whatever order they arrive, are put together to the response.
use hamok_ts.Prelude.{
  min, ◌⊎◌, Bool-cases, ℕ, zero, suc, ◌+◌, ◌-◌, ◌≤◌, ◌<◌, ◌≡◌, refl, sym, ap, ◌∙◌, Option, none,
  some, List, [], ◌∷◌, map, length, arith, true, ◌==◌, number_key, String, All, take,
  take-append-slice, take-all, get_elem?, inl, inr,
}
use hamok_ts.Message.{HamokMessage}
use hamok_ts.JsMap.{JsMap, get, member, Distinct}
use hamok_ts.Requests.ResponseChunker.{apply, entry_chunk}
use hamok_ts.Requests.ResponseChunker.Ending.{apply-CutFrom}
use mathlib.Core.Path.{subst}
use hamok_ts.Requests.ResponseChunker.Chunks.{CutFrom, bound, chunk_at}
use hamok_ts.Requests.PendingResponse.{push_chunk, create, accept_all, push_chunks}
use hamok_ts.Requests.PendingResponse.Accepting.{accept_rest, tagged, get-tagged}

-- The elements of a list in the order of their indices.
abbrev pub pick_one : {A : Type 0} → Option A → List A → List A
pick_one none rest = rest
pick_one (some a) rest = a ∷ rest

abbrev pub picked : {A : Type 0} → List A → List ℕ → List A
picked xs [] = []
picked xs (i ∷ order) = pick_one (get_elem? xs i) (picked xs order)

-- Each index below `n` stands in the order, and none twice.
abbrev pub IsOrder : ℕ → List ℕ → Type 0
IsOrder n order =
    Distinct order
    × All (λ i. i < n) order
    × (length order ≡ n)
    × ((i : ℕ) → i < n → member i order ≡ true)

module _ {E : Type 0} (m : HamokMessage E) (limit : ℕ) where
  cut_end :
      (i : ℕ) (cs : List (HamokMessage E))
      → CutFrom m limit i cs
      → bound m limit (i + length cs) ≡ length m.keys
  cut_end i [] h = let e : i + 0 ≡ i = omega arith in rw (e) h
  cut_end i (c ∷ cs) h =
      let e : i + suc (length cs) ≡ suc i + length cs = omega arith in
      rw (e) (cut_end (suc i) cs h.2)

  cut_before :
      (i j : ℕ) (cs : List (HamokMessage E))
      → CutFrom m limit i cs
      → j < length cs
      → bound m limit (i + j) < length m.keys
  cut_before i j [] h k = absurd (omega arith)
  cut_before i zero (c ∷ cs) h k = let e : i + 0 ≡ i = omega arith in rw (e) h.0
  cut_before i (suc j) (c ∷ cs) h k =
      let e : i + suc j ≡ suc i + j = omega arith in
      rw (e) (cut_before (suc i) j cs h.2 (omega arith))

  cut_elem :
      (i j : ℕ) (cs : List (HamokMessage E))
      → CutFrom m limit i cs
      → j < length cs
      → get_elem? cs j ≡ some (chunk_at m limit (i + j))
  cut_elem i j [] h k = absurd (omega arith)
  cut_elem i zero (c ∷ cs) h k = let e : i + 0 ≡ i = omega arith in rw (e) (ap some h.1)
  cut_elem i (suc j) (c ∷ cs) h k =
      let e : i + suc j ≡ suc i + j = omega arith in
      rw (e) (cut_elem (suc i) j cs h.2 (omega arith))

  picked-chunks :
      (cs : List (HamokMessage E)) (order : List ℕ)
      → CutFrom m limit 0 cs
      → All (λ i. i < length cs) order
      → picked cs order ≡ map (chunk_at m limit) order
  picked-chunks cs [] h b = refl
  picked-chunks cs (i ∷ order) h b =
      let e : 0 + i ≡ i = omega arith in
      let found : get_elem? cs i ≡ some (chunk_at m limit i) =
        cut_elem 0 i cs h b.0 ∙ ap (λ j. some (chunk_at m limit j)) e in
      rw (found, picked-chunks cs order h b.1) refl

  -- The result after the chunks below `seq`.
  abbrev part : ℕ → HamokMessage E
  part seq = record m {
    keys = take (bound m limit seq) m.keys;
    values = take (bound m limit seq) m.values;
    sequence = none;
    last_message = none;
  }

  push_one : (seq : ℕ) → push_chunk (some (chunk_at m limit seq)) (part seq) ≡ part (suc seq)
  unfolding push_chunk chunk_at entry_chunk
  push_one seq =
      let below : bound m limit seq ≤ bound m limit (suc seq) = omega arith in
      let keys = take-append-slice (bound m limit seq) (bound m limit (suc seq)) m.keys below in
      let values = take-append-slice (bound m limit seq) (bound m limit (suc seq)) m.values below in
      rw (keys, values) refl

  push_next :
      (messages : JsMap ℕ (HamokMessage E)) (count seq : ℕ)
      → ((j : ℕ) → j < seq + count → get j messages ≡ some (chunk_at m limit j))
      → push_chunks count seq messages (part seq) ≡ part (seq + count)
  unfolding push_chunks
  push_next messages zero seq all = let e : seq + 0 ≡ seq = omega arith in rw (e) refl
  push_next messages (suc count) seq all =
      let e : seq + suc count ≡ suc seq + count = omega arith in
      let found = all seq (omega arith) in
      let step = ap (λ c. push_chunk c (part seq)) found ∙ push_one seq in
      ap (push_chunks count (suc seq) messages) step
      ∙ rw (e) (push_next messages count (suc seq) (rw (sym e) all))

  first_part : record (chunk_at m limit 0) { sequence = none; last_message = none } ≡ part 1
  unfolding chunk_at entry_chunk
  first_part =
      let e : bound m limit 0 ≡ 0 = omega arith in
      let d : bound m limit 1 - 0 ≡ bound m limit 1 = omega arith in rw (e, d) refl

  whole :
      (n : ℕ)
      → bound m limit n ≡ length m.keys
      → length m.values ≤ length m.keys
      → part n ≡ record m { sequence = none; last_message = none }
  whole n end values =
      rw
        (
          end,
          take-all (length m.keys) m.keys (omega arith),
          take-all (length m.keys) m.values values,
        )
        refl

  chunk_sequence : (j : ℕ) → (chunk_at m limit j).sequence ≡ some j
  unfolding chunk_at entry_chunk
  chunk_sequence j = refl

  chunk_last :
      (cs : List (HamokMessage E)) (p j : ℕ)
      → CutFrom m limit 0 cs
      → length cs ≡ suc (suc p)
      → j < suc (suc p)
      → (chunk_at m limit j).last_message ≡ some (j == suc p)
  unfolding chunk_at entry_chunk
  chunk_last cs p j cut n h =
      let e : 0 + length cs ≡ suc (suc p) = omega arith in
      let end : bound m limit (suc (suc p)) ≡ length m.keys =
        ap (bound m limit) (sym e) ∙ cut_end 0 cs cut in
      let z : 0 + suc j ≡ suc j = omega arith in
      elim (Bool-cases (j == suc p)) [
        | inl is_last ↦ let same : j ≡ suc p = ground arith in ap some (rw (same) (ground arith))
        | inr earlier ↦
            let before : bound m limit (suc j) < length m.keys =
              omega (arith, ap (bound m limit) z, cut_before 0 (suc j) cs cut (ground arith)) in
            ap some (ground arith)
      ]

  pub reassembles :
      (cs : List (HamokMessage E)) (order : List ℕ) (p : ℕ) (source id : String)
      → CutFrom m limit 0 cs
      → length cs ≡ suc (suc p)
      → length m.values ≤ length m.keys
      → IsOrder (suc (suc p)) order
      → (accept_all (map (chunk_at m limit) order) (create source id)).result
        ≡ some (record m { sequence = none; last_message = none })
  unfolding create member
  reassembles cs [] p source id cut n values h = absurd (omega arith)
  reassembles cs (i ∷ rest) p source id cut n values h =
      let e : 0 + length cs ≡ suc (suc p) = omega arith in
      let count : 1 + suc p ≡ suc (suc p) = omega arith in
      let end : bound m limit (suc (suc p)) ≡ length m.keys =
        ap (bound m limit) (sym e) ∙ cut_end 0 cs cut in
      let held = λ (j : ℕ) (k : j < 1 + suc p).
        get-tagged (chunk_at m limit) j (i ∷ rest) ∙ rw (h.3 j (omega arith)) refl in
      let pushed = push_next (tagged (chunk_at m limit) (i ∷ rest)) (suc p) 1 held in
      let accepted =
        accept_rest (chunk_at m limit) p source id [] i rest chunk_sequence
          (λ j k. chunk_last cs p j cut n k) h.0 h.1 h.2 h.3 in
      accepted
      ∙ ap some (
          ap (push_chunks (suc p) 1 (tagged (chunk_at m limit) (i ∷ rest))) first_part
          ∙ pushed
          ∙ rw (count) (whole (suc (suc p)) end values))

module _ {E : Type 0} where
  cut_reassembles :
      (m : HamokMessage E) (limit : ℕ) (cs : List (HamokMessage E)) (order : List ℕ)
      (source id : String)
      → CutFrom m limit 0 cs
      → 2 ≤ length cs
      → length m.values ≤ length m.keys
      → IsOrder (length cs) order
      → (accept_all (picked cs order) (create source id)).result
        ≡ some (record m { sequence = none; last_message = none })
  cut_reassembles m limit cs order source id cut many values h =
      let n : length cs ≡ suc (suc (length cs - 2)) = omega arith in
      rw (picked-chunks m limit cs order cut h.1) (
        reassembles m limit cs order (length cs - 2) source id cut n values
          (subst (λ k. IsOrder k order) n h))

  -- The chunks into which a response is cut, two or more, of a response with as many values as
  -- keys or with no values: accepted by a new pending response in any order, each once, they give
  -- the response as it was, without a sequence number.
  pub accept_all-apply :
      (fuel max_keys max_values : ℕ) (m : HamokMessage E) (cs : List (HamokMessage E))
      (order : List ℕ) (source id : String)
      → (m.values ≡ []) ⊎ (length m.values ≡ length m.keys)
      → apply fuel max_keys max_values m ≡ some cs
      → 2 ≤ length cs
      → IsOrder (length cs) order
      → (accept_all (picked cs order) (create source id)).result
        ≡ some (record m { sequence = none; last_message = none })
  accept_all-apply fuel max_keys max_values m cs order source id same h many o =
      let values : length m.values ≤ length m.keys = elim same [
        | inl e ↦ rw (e) (omega arith)
        | inr e ↦ omega arith
      ] in
      elim (apply-CutFrom fuel max_keys max_values m cs same h many) [
        | inl cut ↦ cut_reassembles m max_keys cs order source id cut many values o
        | inr cut ↦ cut_reassembles m (min max_keys max_values) cs order source id cut many values o
      ]
