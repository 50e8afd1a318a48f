-- ===== src/Requests/PendingResponse/Accepting.antt =====
-- What a pending response holds while chunks arrive: `chunk i` has the sequence number `i`, of the
-- numbers up to the last, `suc p`.
use hamok_ts.Requests.PendingResponse.{
  accept_all, push_chunks, assemble, complete, accept_if, accept, PendingResponse,
}
use hamok_ts.Prelude.{
  Bool, ℕ, suc, ◌<◌, ◌≡◌, refl, sym, ap, ◌∙◌, Option, none, some, List, [], ◌∷◌, ◌++◌, map, length,
  arith, true, false, if◌then◌else◌, ◌==◌, append_one, length-append, number_key, String, All,
}
use hamok_ts.Message.{HamokMessage}
use hamok_ts.JsMap.{JsMap, get, set, member, Distinct}
use hamok_ts.JsMap.Laws.{member_last, Distinct-middle}

module _ {E : Type 0} where
  stored_if :
      (x : Option (HamokMessage E)) (y : Option Bool) (z : Option ℕ) (r : PendingResponse E)
      (m : HamokMessage E) (s : ℕ) (b : Bool)
      → x ≡ none
      → y ≡ some b
      → z ≡ some s
      → accept_if x y z r m
        ≡ complete
            (record r { messages = set s m r.messages; end_seq = if b then some s else r.end_seq })
            m
            (if b then some s else r.end_seq)
  unfolding accept_if
  stored_if none (some y) (some z) r m s b h k l =
      let e : y ≡ b = cc in let f : z ≡ s = cc in rw (e, f) refl
  stored_if (some x) y z r m s b h k l = absurd cc
  stored_if none none z r m s b h k l = absurd cc
  stored_if none (some y) none r m s b h k l = absurd cc

  -- A chunk that is taken is stored.
  accept-stored :
      (m : HamokMessage E) (r : PendingResponse E) (s : ℕ) (b : Bool)
      → r.result ≡ none
      → m.last_message ≡ some b
      → m.sequence ≡ some s
      → accept m r
        ≡ complete
            (record r { messages = set s m r.messages; end_seq = if b then some s else r.end_seq })
            m
            (if b then some s else r.end_seq)
  unfolding accept
  accept-stored m r s b h k l = stored_if r.result m.last_message m.sequence r m s b h k l

module _ {E : Type 0} (chunk : ℕ → HamokMessage E) where
  abbrev pub tagged : List ℕ → JsMap ℕ (HamokMessage E)
  tagged [] = []
  tagged (i ∷ is) = (i, chunk i) ∷ tagged is

  pub get-tagged :
      (j : ℕ) (is : List ℕ) → get j (tagged is) ≡ (if member j is then some (chunk j) else none)
  unfolding get member
  get-tagged j [] = refl
  get-tagged j (i ∷ is) = ground (arith, get-tagged j is)

  set-tagged :
      (i : ℕ) (is : List ℕ)
      → member i is ≡ false
      → set i (chunk i) (tagged is) ≡ tagged (is ++ i ∷ [])
  unfolding set member
  set-tagged i [] h = refl
  set-tagged i (j ∷ is) h = ground (arith, set-tagged i is)

  length-tagged : (is : List ℕ) → length (tagged is) ≡ length is
  length-tagged [] = refl
  length-tagged (i ∷ is) = ap suc (length-tagged is)

  module _ (p : ℕ) (source id : String) where
    abbrev pub progress : List ℕ → PendingResponse E
    progress is = record {
      source_peer_id = source;
      request_id = id;
      messages = tagged is;
      end_seq = if member (suc p) is then some (suc p) else none;
      result = none;
    }

    end_after :
        (i : ℕ) (is : List ℕ)
        → (if i == suc p then some i else if member (suc p) is then some (suc p) else none)
          ≡ (if member (suc p) (is ++ i ∷ []) then some (suc p) else none)
    end_after i is = ground (arith, member_last i (suc p) is)

    still_waiting :
        (b : Bool) (is : List ℕ)
        → ¬ (length (tagged is) ≡ suc (suc p))
        → (m : HamokMessage E)
        → complete
            (record (progress is) { end_seq = if b then some (suc p) else none })
            m
            (if b then some (suc p) else none)
          ≡ record (progress is) { end_seq = if b then some (suc p) else none }
    unfolding complete
    still_waiting true is short m = ground arith
    still_waiting false is short m = refl

    completed :
        (is : List ℕ) (m : HamokMessage E)
        → length (tagged is) ≡ suc (suc p)
        → get 0 (tagged is) ≡ some (chunk 0)
        → (complete (record (progress is) { end_seq = some (suc p) }) m (some (suc p))).result
          ≡ some (
              push_chunks
                (suc p)
                1
                (tagged is)
                (record (chunk 0) { sequence = none; last_message = none }))
    unfolding complete assemble
    completed is m full found =
        let same : (length (tagged is) == suc (suc p)) ≡ true = ground arith in
        rw (same, found) refl

    accept_more :
        (i : ℕ) (is : List ℕ)
        → (chunk i).sequence ≡ some i
        → (chunk i).last_message ≡ some (i == suc p)
        → member i is ≡ false
        → length is < suc p
        → accept (chunk i) (progress is) ≡ progress (is ++ i ∷ [])
    accept_more i is s l new more =
        rw
          (
            accept-stored (chunk i) (progress is) i (i == suc p) refl l s,
            set-tagged i is new,
            end_after i is,
          )
          (still_waiting (member (suc p) (is ++ i ∷ [])) (is ++ i ∷ []) size_now (chunk i))
      where
        size_now : ¬ (length (tagged (is ++ i ∷ [])) ≡ suc (suc p))
        size_now h = omega (arith, length-tagged (is ++ i ∷ []), length-append is (i ∷ []), h)

    -- The last chunk to arrive makes the response ready.
    accept_last :
        (i : ℕ) (is : List ℕ)
        → (chunk i).sequence ≡ some i
        → (chunk i).last_message ≡ some (i == suc p)
        → member i is ≡ false
        → length is ≡ suc p
        → member (suc p) (is ++ i ∷ []) ≡ true
        → member 0 (is ++ i ∷ []) ≡ true
        → (accept (chunk i) (progress is)).result
          ≡ some (
              push_chunks
                (suc p)
                1
                (tagged (is ++ i ∷ []))
                (record (chunk 0) { sequence = none; last_message = none }))
    accept_last i is s l new full end first =
        rw
          (
            accept-stored (chunk i) (progress is) i (i == suc p) refl l s,
            set-tagged i is new,
            end_after i is,
            end,
          )
          (completed (is ++ i ∷ []) (chunk i) size_now found)
      where
        size_now : length (tagged (is ++ i ∷ [])) ≡ suc (suc p)
        size_now = omega (arith, length-tagged (is ++ i ∷ []), length-append is (i ∷ []))

        found : get 0 (tagged (is ++ i ∷ [])) ≡ some (chunk 0)
        found = rw (get-tagged 0 (is ++ i ∷ []), first) refl

    -- The chunks that are left arrive: the last of them makes the response ready.
    pub accept_rest :
        (arrived : List ℕ) (i : ℕ) (rest : List ℕ)
        → ((j : ℕ) → (chunk j).sequence ≡ some j)
        → ((j : ℕ) → j < suc (suc p) → (chunk j).last_message ≡ some (j == suc p))
        → Distinct (arrived ++ i ∷ rest)
        → All (λ j. j < suc (suc p)) (i ∷ rest)
        → length (arrived ++ i ∷ rest) ≡ suc (suc p)
        → ((j : ℕ) → j < suc (suc p) → member j (arrived ++ i ∷ rest) ≡ true)
        → (accept_all (map chunk (i ∷ rest)) (progress arrived)).result
          ≡ some (
              push_chunks
                (suc p)
                1
                (tagged (arrived ++ i ∷ rest))
                (record (chunk 0) { sequence = none; last_message = none }))
    unfolding accept_all
    accept_rest arrived i [] s l u b full each =
        accept_last i arrived (s i) (l i b.0) (Distinct-middle arrived i [] u)
          (omega (arith, length-append arrived (i ∷ []))) (each (suc p) (omega arith))
          (each 0 (omega arith))
    accept_rest arrived i (k ∷ rest) s l u b full each =
        let same = append_one arrived i (k ∷ rest) in
        let step =
          accept_more i arrived (s i) (l i b.0) (Distinct-middle arrived i (k ∷ rest) u)
            (omega (arith, length-append arrived (i ∷ k ∷ rest))) in
        ap (λ r. (accept_all (map chunk (k ∷ rest)) r).result) step
        ∙ rw (sym same) (
            accept_rest (arrived ++ i ∷ []) k rest s l (rw (same) u) b.1 (rw (same) full)
              (rw (same) each))
