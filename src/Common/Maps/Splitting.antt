-- ===== src/Common/Maps/Splitting.antt =====
-- The chunks of splitMap are the source, in its order, and every chunk but the last is full.
use hamok_ts.Prelude.{
  ℕ, ◌≤◌, ◌<◌, ◌≡◌, refl, sym, ◌∙◌, inl, inr, Option, none, some, List, [], ◌∷◌, ◌++◌, arith, ltb,
  Bool-cases, or_else, Key, number_key, string_key, length, length-append, append_one,
}
use hamok_ts.JsMap.{JsMap, size, Unique}
use hamok_ts.JsMap.Laws.{set_new, Unique-middle}
use hamok_ts.Common.Maps.{split_map, split_loop}

-- All entries of the chunks, in order.
abbrev pub joined : {A : Type 0} → List (List A) → List A
joined [] = []
joined (c ∷ cs) = c ++ joined cs

-- Every chunk but the last has `limit` entries, and the last at least one and at most `limit`.
abbrev pub AreFilled : {A : Type 0} → ℕ → List (List A) → Type 0
AreFilled limit [] = Unit {0}
AreFilled limit (c ∷ []) = 1 ≤ length c × length c ≤ limit
AreFilled limit (c ∷ d ∷ cs) = (length c ≡ limit) × AreFilled limit (d ∷ cs)

filled_cons :
    {A : Type 0} (limit : ℕ) (c : List A) (cs : List (List A))
    → 1 ≤ limit
    → length c ≡ limit
    → AreFilled limit cs
    → AreFilled limit (c ∷ cs)
filled_cons limit c [] l h f = (omega arith, omega arith)
filled_cons limit c (d ∷ cs) l h f = (h, f)

module _ {K V : Type 0} ⦃key : Key K⦄ where
  Unique-suffix : (m rest : JsMap K V) → Unique (m ++ rest) → Unique rest
  Unique-suffix [] rest u = u
  Unique-suffix ((k, v) ∷ m) rest u = Unique-suffix m rest u.1

  -- A chunk that is being filled has an entry.
  abbrev IsBegun : Option (JsMap K V) → Type 0
  IsBegun none = Unit {0}
  IsBegun (some chunk) = 1 ≤ length chunk

  split_loop_lem :
      (limit : ℕ) (entries : JsMap K V) (start : Option (JsMap K V))
      → 1 ≤ limit
      → length (or_else start []) < limit
      → IsBegun start
      → Unique (or_else start [] ++ entries)
      → (joined (split_loop limit entries start) ≡ or_else start [] ++ entries)
        × AreFilled limit (split_loop limit entries start)
  unfolding split_loop
  split_loop_lem limit [] none l small begun u = (refl, tt)
  split_loop_lem limit [] (some chunk) l small begun u = (refl, (begun, omega arith))
  split_loop_lem limit ((k, v) ∷ entries) start l small begun u =
      let content = or_else start [] in
      let same = set_new k v content (Unique-middle content k v entries u) in
      let whole = append_one content (k, v) entries in
      let count = length-append content ((k, v) ∷ []) in
      let left : Unique ((content ++ (k, v) ∷ []) ++ entries) = rw (whole) u in
      rw (same) (elim (Bool-cases (ltb (size (content ++ (k, v) ∷ [])) limit)) [
        | inl go_on ↦
            let (order, filled) =
              split_loop_lem limit entries (some (content ++ (k, v) ∷ [])) l (ground arith)
                (omega arith) left in
            rw (go_on) (order ∙ whole, filled)
        | inr full ↦
            let (order, filled) =
              split_loop_lem limit entries none l (omega arith) tt
                (Unique-suffix (content ++ (k, v) ∷ []) entries left) in
            let exact : length (content ++ (k, v) ∷ []) ≡ limit = ground arith in
            rw (full, order)
              (
                whole,
                filled_cons limit (content ++ (k, v) ∷ []) (split_loop limit entries none) l exact
                    filled,
              )
      ])

  -- splitMap with a size of at least 1 gives chunks that are the source in its order when put one
  -- after the other; every chunk but the last has that size, and the last has at least one entry
  -- and at most that size.
  pub split_map_lem :
      (source : JsMap K V) (limit : ℕ) (default : Option (List (JsMap K V)))
      (chunks : List (JsMap K V))
      → Unique source
      → 1 ≤ limit
      → split_map source limit default ≡ some chunks
      → (joined chunks ≡ source) × AreFilled limit chunks
  unfolding split_map
  split_map_lem source limit default chunks u l h =
      let e : split_loop limit source none ≡ chunks = ground arith in
      rw (sym e) (split_loop_lem limit source none l (omega arith) tt u)
