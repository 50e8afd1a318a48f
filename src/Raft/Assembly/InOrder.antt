-- ===== src/Raft/Assembly/InOrder.antt =====
-- The chunks of a request, added in the order in which the leader sends them.
use hamok_ts.Prelude.{
  map, length-append, negsuc, pos, if_pos, string_discrete, sym, ◌∙◌, is_negative, true, false, ℤ,
  String, ℕ, zero, suc, ◌+◌, ◌<◌, ◌≡◌, refl, ap, Option, none, some, List, [], ◌∷◌, ◌++◌,
  if◌then◌else◌, length, get_elem?, arith, number_key,
}
use hamok_ts.JsMap
use hamok_ts.JsMap.{JsMap}
use hamok_ts.Message.{HamokMessage}
use mathlib.Core.List.{append_assoc}
use hamok_ts.Logs.{LogEntry}
use hamok_ts.Raft.Engine.{RaftEngine}
use hamok_ts.Raft.Leader.Replication.{request_chunk, request_chunks}
use hamok_ts.Raft.Messages.{RaftAppendEntriesRequestChunk}
use hamok_ts.Raft.Assembly.{
  new_request, is_ready, add_entry, finish, note_header, if_unset, RaftAppendEntriesRequest, added,
  throws, add_chunk, in_sequence,
}

if_unset_self : (next : ℤ) → if_unset next next ≡ next
if_unset_self (pos n) = refl
if_unset_self (negsuc n) = refl

module _ {E : Type 0} where
  -- The chunks are added until the request is ready: the request, and the chunks that are left.
  unfoldable pub assemble_all :
      List (RaftAppendEntriesRequestChunk E)
      → RaftAppendEntriesRequest E
      → Option (RaftAppendEntriesRequest E × List (RaftAppendEntriesRequestChunk E))
  assemble_all [] r = none
  assemble_all (c ∷ cs) r = elim (add_chunk c r) [
    | throws r' ↦ none
    | added r' ↦ let rest = assemble_all cs r' in if r'.ready then some (r', cs) else rest
  ]

  -- The table with the messages under consecutive sequence numbers.
  abbrev pub table : ℕ → List (HamokMessage E) → JsMap ℕ (HamokMessage E)
  table k [] = []
  table k (m ∷ ms) = (k, m) ∷ table (suc k) ms

  get-table_below : (j k : ℕ) (ms : List (HamokMessage E)) → j < k → JsMap.get j (table k ms) ≡ none
  unfolding JsMap.get
  get-table_below j k [] h = refl
  get-table_below j k (m ∷ ms) h = ground (arith, get-table_below j (suc k) ms)

  get-table :
      (j k i : ℕ) (ms : List (HamokMessage E))
      → j ≡ k + i
      → JsMap.get j (table k ms) ≡ get_elem? ms i
  unfolding JsMap.get
  get-table j k i [] h = refl
  get-table j k zero (m ∷ ms) h = ground arith
  get-table j k (suc i) (m ∷ ms) h = ground (arith, get-table j (suc k) i ms)

  get_elem?_past : (ms : List (HamokMessage E)) → get_elem? ms (length ms) ≡ none
  get_elem?_past [] = refl
  get_elem?_past (m ∷ ms) = get_elem?_past ms

  set-table :
      (j k : ℕ) (m : HamokMessage E) (ms : List (HamokMessage E))
      → j ≡ k + length ms
      → JsMap.set j m (table k ms) ≡ table k (ms ++ m ∷ [])
  unfolding JsMap.set
  set-table j k m [] h = ground arith
  set-table j k m (x ∷ ms) h = ground (arith, set-table j (suc k) m ms)

  in_sequence_all :
      (k : ℕ) (ms : List (HamokMessage E)) (t : JsMap ℕ (HamokMessage E))
      → ((i : ℕ) → i < length ms → JsMap.get (k + i) t ≡ get_elem? ms i)
      → in_sequence (length ms) k t ≡ ms
  unfolding in_sequence
  in_sequence_all k [] t h = refl
  in_sequence_all k (m ∷ ms) t h =
      let here : JsMap.get k t ≡ some m =
        (let same : k + 0 ≡ k = omega arith in rw same at (h 0 (omega arith))) in
      rw (here, in_sequence)
        (ap (λ l. m ∷ l)
          (in_sequence_all (suc k) ms t (λ i below.
            let same : k + suc i ≡ suc k + i = omega arith in
            rw same at (h (suc i) (omega arith)))))

  length-table : (k : ℕ) (ms : List (HamokMessage E)) → length (table k ms) ≡ length ms
  length-table k [] = refl
  length-table k (m ∷ ms) = ap suc (length-table (suc k) ms)

  -- A request that holds the messages `done` and waits for more of a leader's log.
  record Waits (id : String) (next : ℤ) (done : List (HamokMessage E))
      (r : RaftAppendEntriesRequest E) : Type 0 where
    named : r.request_id ≡ id
    held : r.entries ≡ table 0 done
    unready : r.ready ≡ false
    open_end : r.end_seq ≡ none
    reach : if_unset r.leader_next_index next ≡ next

  abbrev grown :
      RaftAppendEntriesRequestChunk E
      → HamokMessage E
      → RaftAppendEntriesRequest E
      → RaftAppendEntriesRequest E
  grown c m r = record (note_header c r) { entries = JsMap.set c.sequence m r.entries }

  add_chunk_fits :
      (m : HamokMessage E) (c : RaftAppendEntriesRequestChunk E) (r : RaftAppendEntriesRequest E)
      → c.request_id ≡ r.request_id
      → c.entry ≡ some m
      → JsMap.get c.sequence r.entries ≡ none
      → add_chunk c r ≡ added (finish c (grown c m r))
  unfolding add_chunk
  add_chunk_fits m c r same full free = elim (string_discrete c.request_id r.request_id) [
    | yes p ↦ rw (if_pos _ p, full) (step (unfold note_header in free))
    | no q ↦ absurd (q same)
  ]
    where
      step :
          JsMap.get c.sequence (note_header c r).entries ≡ none
          → add_entry c (note_header c r) (some m) ≡ added (finish c (grown c m r))
      step h = rw (h)

  grown_entries :
      (done : List (HamokMessage E)) (m : HamokMessage E) (c : RaftAppendEntriesRequestChunk E)
      (r : RaftAppendEntriesRequest E)
      → r.entries ≡ table 0 done
      → c.sequence ≡ length done
      → JsMap.set c.sequence m r.entries ≡ table 0 (done ++ m ∷ [])
  grown_entries done m c r held at = rw (held, at) (set-table (length done) 0 m done (omega arith))

  place_free :
      (done : List (HamokMessage E)) (c : RaftAppendEntriesRequestChunk E)
      (r : RaftAppendEntriesRequest E)
      → r.entries ≡ table 0 done
      → c.sequence ≡ length done
      → JsMap.get c.sequence r.entries ≡ none
  place_free done c r held at =
      rw (held, at)
        (get-table (length done) 0 (length done) done (omega arith) ∙ get_elem?_past done)

  add_middle :
      (id : String) (next : ℤ) (done : List (HamokMessage E)) (m : HamokMessage E)
      (c : RaftAppendEntriesRequestChunk E) (r : RaftAppendEntriesRequest E)
      → Waits id next done r
      → c.request_id ≡ id
      → c.leader_next_index ≡ next
      → c.sequence ≡ length done
      → c.entry ≡ some m
      → c.last_message ≡ false
      → is_negative next ≡ false
      → (r' : RaftAppendEntriesRequest E) × (add_chunk c r ≡ added r')
        × Waits id next (done ++ m ∷ []) r'
  unfolding finish note_header
  add_middle id next done m c r w ci cn cs ce cl pn =
      let full = grown_entries done m c r w.held cs in
      let fits = add_chunk_fits m c r (ci ∙ sym w.named) ce (place_free done c r w.held cs) in
      (
        finish c (grown c m r),
        fits,
        record {
          named = w.named;
          held = full;
          unready = rw (cl, w.open_end) w.unready;
          open_end = rw (cl) w.open_end;
          reach = rw (cn, w.reach) (if_unset_self next);
        },
      )

  add_last :
      (id : String) (next : ℤ) (done : List (HamokMessage E)) (m : HamokMessage E)
      (c : RaftAppendEntriesRequestChunk E) (r : RaftAppendEntriesRequest E)
      → Waits id next done r
      → c.request_id ≡ id
      → c.leader_next_index ≡ next
      → c.sequence ≡ length done
      → c.entry ≡ some m
      → c.last_message ≡ true
      → (r' : RaftAppendEntriesRequest E) × (add_chunk c r ≡ added r')
        × (r'.ready ≡ true)
        × (r'.entries_list ≡ done ++ m ∷ [])
        × (r'.leader_next_index ≡ next)
  unfolding finish note_header is_ready
  add_last id next done m c r w ci cn cs ce cl =
      let full = grown_entries done m c r w.held cs in
      let fits = add_chunk_fits m c r (ci ∙ sym w.named) ce (place_free done c r w.held cs) in
      let long : length (table 0 (done ++ m ∷ [])) ≡ length done + 1 =
        length-table 0 (done ++ m ∷ []) ∙ length-append done (m ∷ []) in
      let list : in_sequence (length (table 0 (done ++ m ∷ []))) 0 (table 0 (done ++ m ∷ []))
          ≡ done ++ m ∷ [] =
        rw (length-table 0 (done ++ m ∷ [])) (
          in_sequence_all 0 (done ++ m ∷ []) (table 0 (done ++ m ∷ []))
            (λ i h. get-table (0 + i) 0 i _ refl)) in
      let done_now : is_ready (some (length done)) (length (table 0 (done ++ m ∷ []))) r.ready
          ≡ true =
        ground (arith, long) in
      (
        finish c (grown c m r),
        fits,
        rw (full, cl, cs) done_now,
        rw (full, cl, cs, done_now) list,
        rw cn w.reach,
      )

  assemble_ready :
      (c : RaftAppendEntriesRequestChunk E) (cs : List (RaftAppendEntriesRequestChunk E))
      (r r' : RaftAppendEntriesRequest E)
      → add_chunk c r ≡ added r'
      → r'.ready ≡ true
      → assemble_all (c ∷ cs) r ≡ some (r', cs)
  unfolding assemble_all
  assemble_ready c cs r r' fits full = rw (fits, assemble_all, full)

  assemble_more :
      (c : RaftAppendEntriesRequestChunk E) (cs : List (RaftAppendEntriesRequestChunk E))
      (r r' : RaftAppendEntriesRequest E)
      → add_chunk c r ≡ added r'
      → r'.ready ≡ false
      → assemble_all (c ∷ cs) r ≡ assemble_all cs r'
  unfolding assemble_all
  assemble_more c cs r r' fits open_still = rw (fits, assemble_all, open_still)

  assemble_waiting :
      (id peer : String) (prev : ℤ) (term : ℕ) (e : RaftEngine E) (k : ℕ) (d : LogEntry E)
      (ds : List (LogEntry E)) (done : List (HamokMessage E)) (r : RaftAppendEntriesRequest E)
      → k ≡ length done
      → Waits id (pos e.logs.next_index) done r
      → (r' : RaftAppendEntriesRequest E) × (assemble_all
            (request_chunks id peer prev term e k (d ∷ ds))
            r
          ≡ some (r', []))
        × (r'.entries_list ≡ done ++ map (λ x. x.entry) (d ∷ ds))
        × (r'.leader_next_index ≡ pos e.logs.next_index)
  unfolding request_chunks
  assemble_waiting id peer prev term e k d [] done r h w =
      let (r', fits, ready, list, reach) =
        add_last id (pos e.logs.next_index) done d.entry
          (request_chunk id peer prev term e k true (some d.entry)) r w refl refl h refl refl in
      (r', assemble_ready _ [] r r' fits ready, list, reach)
  assemble_waiting id peer prev term e k d (d' ∷ ds) done r h w =
      let (r', fits, w') =
        add_middle id (pos e.logs.next_index) done d.entry
          (request_chunk id peer prev term e k false (some d.entry)) r w refl refl h refl refl
          refl in
      let (r'', all, list, reach) =
        assemble_waiting id peer prev term e (suc k) d' ds (done ++ d.entry ∷ []) r'
          (rw (length-append done (d.entry ∷ [])) (omega arith)) w' in
      (
        r'',
        assemble_more _ _ r r' fits w'.unready ∙ all,
        list ∙ append_assoc done (d.entry ∷ []) _,
        reach,
      )

  -- The chunks that a leader sends of entries of its log, added in the order of sending to a new
  -- request, make it ready with the last one and not before: its entries are then those of the
  -- leader, in order, and its next index is the leader's.
  pub assemble_all-request_chunks :
      (id peer : String) (prev : ℤ) (term : ℕ) (e : RaftEngine E) (d : LogEntry E)
      (ds : List (LogEntry E))
      → (r : RaftAppendEntriesRequest E) × (assemble_all
            (request_chunks id peer prev term e 0 (d ∷ ds))
            (new_request id)
          ≡ some (r, []))
        × (r.entries_list ≡ map (λ x. x.entry) (d ∷ ds))
        × (r.leader_next_index ≡ pos e.logs.next_index)
  assemble_all-request_chunks id peer prev term e d ds =
      assemble_waiting id peer prev term e 0 d ds [] (new_request id) refl
        (record { named = refl; held = refl; unready = refl; open_end = refl; reach = refl })
