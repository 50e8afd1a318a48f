-- ===== src/Collections/Record/Agreement.antt =====
-- What the requests do to every property of a record.
use hamok_ts.Prelude.{
  string_discrete, first_some, String, ◌≡◌, ◌≢◌, refl, ap, ◌∙◌, ite, Bool, true, ◌&&◌, Option, none,
  some, List, [], ◌∷◌, arith, if◌then◌else◌, number_key, string_key, All,
}
use hamok_ts.JsMap.{JsMap, get, member, Unique}
use hamok_ts.Collections.PlainObject.{read, assign, remove, proto_key}
use hamok_ts.Collections.PlainObject.Ordinary.{
  IsOrdinary, assign-IsOrdinary, remove-IsOrdinary, read-assign, read-remove,
}
use hamok_ts.Messages.Types.Insertions.{UpdateEntriesRequest}
use hamok_ts.Collections.Record.{
  update_if, update_always, update_expected, on_clear, on_delete, on_insert, on_update, Payloads,
  delete_keys, insert_new, set_entries, decode_value, all_expected,
}
use hamok_ts.Collections.Record.Requests.{
  handle, handle_all, RecordRequest, clear_record, delete_properties, insert_properties,
  update_properties,
}

module _ {P : Type 0} (payloads : Payloads P) where
  -- The decoded value of an entry.
  abbrev pub decoded_at : String → Option String → Option P
  unfolding decode_value
  decoded_at k none = none
  decoded_at k (some text) = some (decode_value payloads k text)

  -- What an object without properties of its own has under a key.
  abbrev pub inherited : String → Option P
  inherited j = payloads.prototypes.inherited none j

  abbrev pub at : String → JsMap String P → Option P
  at j object = read payloads.prototypes j object

  -- No key stands twice, and none is __proto__.
  abbrev pub IsPlain : JsMap String String → Type 0
  IsPlain entries = Unique entries × (get proto_key entries ≡ none)

  first_apart :
      (k text : String) (entries : JsMap String String)
      → IsPlain ((k, text) ∷ entries)
      → k ≢ proto_key
  unfolding get
  first_apart k text entries u = ground (arith, u)

  rest-IsPlain :
      (k text : String) (entries : JsMap String String)
      → IsPlain ((k, text) ∷ entries)
      → IsPlain entries
  unfolding get
  rest-IsPlain k text entries u = ground (arith, u)

  none_inherited :
      (k : String) (object : JsMap String P)
      → IsOrdinary object
      → at k object ≡ none
      → inherited k ≡ none
  unfolding read
  none_inherited k object o h = ground (arith, o, h)

  read-delete_keys :
      (ks : List String) (object : JsMap String P) (j : String)
      → IsOrdinary object
      → IsOrdinary (delete_keys payloads ks object).0
        × (at j (delete_keys payloads ks object).0
            ≡ (if member j ks then inherited j else at j object))
  unfolding delete_keys member
  read-delete_keys [] object j o = (o, refl)
  read-delete_keys (k ∷ ks) object j o =
      let same = read-delete_keys ks object j o in
      let left = read-delete_keys ks (remove k object) j (remove-IsOrdinary k object o) in
      let one = read-remove payloads.prototypes k j object o in
      (
        ground (arith, same.0, left.0),
        ground (arith, same.1, left.1, one, none_inherited k object o),
      )

  read-insert_new :
      (entries : JsMap String String) (object : JsMap String P) (j : String)
      → IsPlain entries
      → IsOrdinary object
      → IsOrdinary (insert_new payloads entries object).0
        × (at j (insert_new payloads entries object).0
            ≡ first_some (at j object) (decoded_at j (get j entries)))
  unfolding insert_new get
  read-insert_new [] object j u o = (o, ground arith)
  read-insert_new ((k, text) ∷ entries) object j u o =
      let v = decode_value payloads k text in
      let new = assign payloads.prototypes k v object in
      let later = rest-IsPlain k text entries u in
      let apart = first_apart k text entries u in
      let rest =
        read-insert_new entries new j later
          (assign-IsOrdinary payloads.prototypes k v object apart o) in
      let same = read-insert_new entries object j later o in
      let one = read-assign payloads.prototypes k j v object apart in
      (ground (arith, rest.0, same.0), ground (arith, rest.1, same.1, one, u))

  read-set_entries :
      (counts : P → Bool) (entries : JsMap String String) (object : JsMap String P) (j : String)
      → IsPlain entries
      → IsOrdinary object
      → IsOrdinary (set_entries payloads counts entries object).0
        × (at j (set_entries payloads counts entries object).0
            ≡ first_some (decoded_at j (get j entries)) (at j object))
  unfolding set_entries get
  read-set_entries counts [] object j u o = (o, refl)
  read-set_entries counts ((k, text) ∷ entries) object j u o =
      let v = decode_value payloads k text in
      let new = assign payloads.prototypes k v object in
      let apart = first_apart k text entries u in
      let rest =
        read-set_entries counts entries new j (rest-IsPlain k text entries u)
          (assign-IsOrdinary payloads.prototypes k v object apart o) in
      let one = read-assign payloads.prototypes k j v object apart in
      (rest.0, ground (arith, rest.1, one, u))

  -- The expected values, compared with those that a function gives.
  abbrev pub expects_all : JsMap String P → (String → Option P) → Bool
  expects_all [] f = true
  expects_all ((k, v) ∷ expected) f = payloads.equal_values (f k) v && expects_all expected f

  all_expected-read :
      (expected object : JsMap String P)
      → all_expected payloads expected object ≡ expects_all expected (λ k. at k object)
  unfolding all_expected
  all_expected-read [] object = refl
  all_expected-read ((k, v) ∷ expected) object =
      ap (λ b. payloads.equal_values (at k object) v && b) (all_expected-read expected object)

  abbrev pub after_set : JsMap String String → (String → Option P) → String → Option P
  after_set entries f j = first_some (decoded_at j (get j entries)) (f j)

  -- An update with expected values sets all of its entries or none.
  abbrev pub after_update :
      Option String → JsMap String String → (String → Option P) → String → Option P
  after_update none entries f j = after_set entries f j
  after_update (some prev) entries f j =
      ite (string_discrete prev "") (after_set entries f j)
        (if expects_all (payloads.parse_object prev) f then after_set entries f j else f j)

  abbrev pub next : RecordRequest → (String → Option P) → String → Option P
  next (clear_record r) f j = inherited j
  next (delete_properties r) f j = if member j r.keys then inherited j else f j
  next (insert_properties r) f j = first_some (f j) (decoded_at j (get j r.entries))
  next (update_properties r) f j = after_update r.prev_value r.entries f j

  -- The entries of a request have no key twice, and none under __proto__.
  abbrev pub IsSound : RecordRequest → Type 0
  IsSound (clear_record r) = Unit {0}
  IsSound (delete_properties r) = Unit {0}
  IsSound (insert_properties r) = IsPlain r.entries
  IsSound (update_properties r) = IsPlain r.entries

  read-update :
      (prev : Option String) (local : String) (r : UpdateEntriesRequest String String)
      (object : JsMap String P) (j : String)
      → IsPlain r.entries
      → IsOrdinary object
      → IsOrdinary (update_if payloads prev local r object).0
        × (at j (update_if payloads prev local r object).0
            ≡ after_update prev r.entries (λ k. at k object) j)
  unfolding update_if update_always update_expected
  read-update none local r object j u o = read-set_entries (λ old. true) r.entries object j u o
  read-update (some prev) local r object j u o =
      let all = read-set_entries (λ old. true) r.entries object j u o in
      let expected = read-set_entries payloads.truthy r.entries object j u o in
      (
        ground (arith, all.0, expected.0, o),
        ground (arith, all.1, expected.1, all_expected-read (payloads.parse_object prev) object),
      )

  read-handle :
      (local : String) (r : RecordRequest) (object : JsMap String P) (j : String)
      → IsSound r
      → IsOrdinary object
      → IsOrdinary (handle payloads local r object).0
        × (at j (handle payloads local r object).0 ≡ next r (λ k. at k object) j)
  unfolding handle on_clear on_delete on_insert on_update get read
  read-handle local (clear_record r) object j s o = (refl, refl)
  read-handle local (delete_properties r) object j s o = read-delete_keys r.keys object j o
  read-handle local (insert_properties r) object j s o = read-insert_new r.entries object j s o
  read-handle local (update_properties r) object j s o =
      read-update r.prev_value local r object j s o

  expects_all-same :
      (expected : JsMap String P) (f g : String → Option P)
      → ((k : String) → f k ≡ g k)
      → expects_all expected f ≡ expects_all expected g
  expects_all-same [] f g h = refl
  expects_all-same ((k, v) ∷ expected) f g h = rw (h k, expects_all-same expected f g h) refl

  after_update-same :
      (prev : Option String) (entries : JsMap String String) (f g : String → Option P) (j : String)
      → ((k : String) → f k ≡ g k)
      → after_update prev entries f j ≡ after_update prev entries g j
  after_update-same none entries f g j h = rw (h j) refl
  after_update-same (some prev) entries f g j h =
      rw (h j, expects_all-same (payloads.parse_object prev) f g h) refl

  next-same :
      (r : RecordRequest) (f g : String → Option P) (j : String)
      → ((k : String) → f k ≡ g k)
      → next r f j ≡ next r g j
  next-same (clear_record r) f g j h = refl
  next-same (delete_properties r) f g j h = rw (h j) refl
  next-same (insert_properties r) f g j h = rw (h j) refl
  next-same (update_properties r) f g j h = after_update-same r.prev_value r.entries f g j h

  abbrev pub next_all : List RecordRequest → (String → Option P) → String → Option P
  next_all [] f j = f j
  next_all (r ∷ rs) f j = next_all rs (next r f) j

  -- On an object whose prototype was never assigned, requests whose entries have no key twice and
  -- none under __proto__ make of a replicated record what the specification makes of it as a
  -- function of the keys, whatever the local peer and whatever objects inherit: what is there or
  -- inherited under a key is kept by insertion and overwritten by update, deletion and clearing
  -- leave what is inherited, and an update with expected values sets all of its entries if every
  -- expected value equals that of the record, and none otherwise.
  pub read-handle_all :
      (local : String) (rs : List RecordRequest) (object : JsMap String P) (f : String → Option P)
      (j : String)
      → All IsSound rs
      → IsOrdinary object
      → ((k : String) → read payloads.prototypes k object ≡ f k)
      → read payloads.prototypes j (handle_all payloads local rs object) ≡ next_all rs f j
  unfolding handle_all
  read-handle_all local [] object f j s o h = h j
  read-handle_all local (r ∷ rs) object f j s o h =
      read-handle_all local rs (handle payloads local r object).0 (next r f) j s.1
        (read-handle local r object j s.0 o).0
        (λ k. (read-handle local r object k s.0 o).1 ∙ next-same r (λ i. at i object) f k h)
