-- ===== src/Serial/Laws.antt =====
-- What is written as JSON by the functions of src/sharedstate.cc is read back.
use shared_state_async.Prelude.{true, List, All, none, some, [], ◌∷◌, ◌≡◌, refl, ◌∙◌, arith}
use shared_state_async.Prelude.Int.{pos}
use shared_state_async.Prelude.Map.{Map, lookup}
use shared_state_async.Prelude.Bytes.{Bytes, bytes, bytes_less, bytes_eq, bytes_key}
use shared_state_async.State.{DataTypeConf, StateEntry, StateSlice}
use shared_state_async.Wire.Message.{NetworkStats}
use shared_state_async.Serial.{
  to_json, from_json, Named, Serializer, serial_entry, serial_conf, serial_stats, from_state_slice,
  to_state_slice,
}
use shared_state_async.Serial.Library.{
  written_entries, read_entries, AreSame, IsSorted, IsNew, IsNamed, whole, ReadsBack, RoundTrips,
  EntryFits, SliceFits, IsSerializer, without_peer, ConfFits, StatsFit,
}

module _ {Ctx Json : Type 0} (r : Serializer Ctx Json) (lib : IsSerializer r) where
  open lib use {V, members, by_text, by_int64, by_uint32, by_json}

  -- The members of a document, the last one first.
  Holds : Ctx → Map Bytes V → Type 0
  Holds ctx doc = (k : Bytes) → members ctx k ≡ lookup k doc

  nothing : {ctx : Ctx} → IsNew members ctx → Holds ctx []
  unfolding Holds lookup
  nothing new = new

  wrote :
      {A : Type 0} {value : A → V} {Fits : A → Type 0} {p : Named Ctx A}
      (law : IsNamed members value Fits p) (n : Bytes) (a : A) (ctx : Ctx) (doc : Map Bytes V)
      → Fits a
      → Holds ctx doc
      → lookup n doc ≡ none
      → Holds (p n to_json (a, ctx)).1 ((n, value a) ∷ doc)
  unfolding Holds lookup
  wrote law n a ctx doc fits h new k = rw (law.writes n k a ctx fits (h n ∙ new), h k) refl

  kept :
      {A : Type 0} {value : A → V} {Fits : A → Type 0} {p : Named Ctx A}
      (law : IsNamed members value Fits p) (n : Bytes) (a : A) (ctx : Ctx) (doc : Map Bytes V)
      → Fits a
      → Holds ctx doc
      → lookup n doc ≡ none
      → (p n to_json (a, ctx)).0 ≡ a
  unfolding Holds
  kept law n a ctx doc fits h new = law.keeps n a ctx fits (h n ∙ new)

  read :
      {A : Type 0} {value : A → V} {Fits : A → Type 0} {p : Named Ctx A}
      (law : IsNamed members value Fits p) (n : Bytes) (a b : A) (ctx : Ctx) (doc : Map Bytes V)
      → Fits a
      → Holds ctx doc
      → lookup n doc ≡ some (value a)
      → p n from_json (b, ctx) ≡ (a, ctx)
  unfolding Holds
  read law n a b ctx doc fits h found = law.reads n a b ctx fits (h n ∙ found)

  -- An entry of the state, whose TTL is an `int64_t`.
  pub serial_entry-RoundTrips : RoundTrips members EntryFits (serial_entry r)
  unfolding serial_entry lookup bytes_eq
  serial_entry-RoundTrips e e' ctx fits new =
      let d₁ = wrote by_text (bytes "mAuthor") e.m_author _ _ tt (nothing new) refl in
      let d₂ = wrote by_int64 (bytes "mTtl") e.m_ttl _ _ fits d₁ refl in
      let d₃ = wrote by_json (bytes "mData") e.m_data _ _ tt d₂ refl in
      (
        rw
            (
              kept by_text (bytes "mAuthor") e.m_author _ _ tt (nothing new) refl,
              kept by_int64 (bytes "mTtl") e.m_ttl _ _ fits d₁ refl,
              kept by_json (bytes "mData") e.m_data _ _ tt d₂ refl,
            )
            refl,
        rw
            (
              read by_text (bytes "mAuthor") e.m_author e'.m_author _ _ tt d₃ refl,
              read by_int64 (bytes "mTtl") e.m_ttl e'.m_ttl _ _ fits d₃ refl,
              read by_json (bytes "mData") e.m_data e'.m_data _ _ tt d₃ refl,
            )
            refl,
      )

  -- The configuration of a type.
  pub serial_conf-ReadsBack :
      (c c' : DataTypeConf) (ctx : Ctx)
      → ConfFits c
      → IsNew members ctx
      → ReadsBack whole (serial_conf r) c c' ctx
  unfolding serial_conf lookup bytes_eq
  serial_conf-ReadsBack c c' ctx fits new =
      let d₁ = wrote by_text (bytes "mName") c.m_name _ _ tt (nothing new) refl in
      let d₂ = wrote by_text (bytes "mScope") c.m_scope _ _ tt d₁ refl in
      let d₃ = wrote by_int64 (bytes "mUpdateInterval") c.m_update_interval _ _ fits.0 d₂ refl in
      let d₄ = wrote by_int64 (bytes "mBleachTTL") c.m_bleach_ttl _ _ fits.1 d₃ refl in
      (
        rw
            (
              kept by_text (bytes "mName") c.m_name _ _ tt (nothing new) refl,
              kept by_text (bytes "mScope") c.m_scope _ _ tt d₁ refl,
              kept by_int64 (bytes "mUpdateInterval") c.m_update_interval _ _ fits.0 d₂ refl,
              kept by_int64 (bytes "mBleachTTL") c.m_bleach_ttl _ _ fits.1 d₃ refl,
            )
            refl,
        rw
            (
              read by_text (bytes "mName") c.m_name c'.m_name _ _ tt d₄ refl,
              read by_text (bytes "mScope") c.m_scope c'.m_scope _ _ tt d₄ refl,
              read by_int64 (bytes "mUpdateInterval") c.m_update_interval c'.m_update_interval _ _
                  fits.0 d₄ refl,
              read by_int64 (bytes "mBleachTTL") c.m_bleach_ttl c'.m_bleach_ttl _ _ fits.1 d₄ refl,
            )
            refl,
      )

  -- With a serializer as documented: the statistics of a peer, whose numbers have the widths of their
  -- types, stay as they are when they are written to a new document, and are read back from there
  -- whole but for the peer, which stays the one of the variable.
  pub serial_stats-ReadsBack :
      {Addr : Type 0} (s s' : NetworkStats Addr) (ctx : Ctx)
      → StatsFit s
      → IsNew members ctx
      → ReadsBack without_peer (serial_stats r) s s' ctx
  unfolding serial_stats lookup bytes_eq
  serial_stats-ReadsBack s s' ctx fits new =
      let d₁ =
        wrote by_int64 (bytes "mTS") (pos s.m_ts) _ _ (fits.0, omega arith) (nothing new) refl in
      let d₂ =
        wrote by_int64 (bytes "mRttExt") (pos s.m_rtt_ext) _ _ (fits.1, omega arith) d₁ refl in
      let d₃ = wrote by_uint32 (bytes "mUpBwMbsExt") s.m_up_bw_mbs_ext _ _ fits.2 d₂ refl in
      let d₄ = wrote by_uint32 (bytes "mDownBwMbsExt") s.m_down_bw_mbs_ext _ _ fits.3 d₃ refl in
      (
        rw
            (
              kept by_int64 (bytes "mTS") (pos s.m_ts) _ _ (fits.0, omega arith) (nothing new) refl,
              kept by_int64 (bytes "mRttExt") (pos s.m_rtt_ext) _ _ (fits.1, omega arith) d₁ refl,
              kept by_uint32 (bytes "mUpBwMbsExt") s.m_up_bw_mbs_ext _ _ fits.2 d₂ refl,
              kept by_uint32 (bytes "mDownBwMbsExt") s.m_down_bw_mbs_ext _ _ fits.3 d₃ refl,
            )
            refl,
        rw
            (
              read by_int64 (bytes "mTS") (pos s.m_ts) (pos s'.m_ts) _ _ (fits.0, omega arith) d₄
                  refl,
              read by_int64 (bytes "mRttExt") (pos s.m_rtt_ext) (pos s'.m_rtt_ext) _ _
                  (fits.1, omega arith) d₄ refl,
              read by_uint32 (bytes "mUpBwMbsExt") s.m_up_bw_mbs_ext s'.m_up_bw_mbs_ext _ _ fits.2
                  d₄ refl,
              read by_uint32 (bytes "mDownBwMbsExt") s.m_down_bw_mbs_ext s'.m_down_bw_mbs_ext _ _
                  fits.3 d₄ refl,
            )
            refl,
      )

  -- An entry is read from any document with the members that were written.
  entry_read :
      (e e' : StateEntry Json) (ctx ctx' : Ctx)
      → EntryFits e
      → IsNew members ctx
      → ((n : Bytes) → members ctx' n ≡ members (serial_entry r to_json (e, ctx)).1 n)
      → (serial_entry r from_json (e', ctx')).0 ≡ e
  unfolding serial_entry lookup bytes_eq Holds
  entry_read e e' ctx ctx' fits new same =
      let doc₁ : Map Bytes V = (bytes "mAuthor", lib.text_value e.m_author) ∷ [] in
      let doc₂ : Map Bytes V = (bytes "mTtl", lib.int64_value e.m_ttl) ∷ doc₁ in
      let d₁ = wrote by_text (bytes "mAuthor") e.m_author ctx [] tt (nothing new) refl in
      let d₂ = wrote by_int64 (bytes "mTtl") e.m_ttl _ doc₁ fits d₁ refl in
      let d₃ = wrote by_json (bytes "mData") e.m_data _ doc₂ tt d₂ refl in
      let doc : Map Bytes V = (bytes "mData", lib.json_value e.m_data) ∷ doc₂ in
      let h : Holds ctx' doc = λ k. same k ∙ d₃ k in
      rw
        (
          read by_text (bytes "mAuthor") e.m_author e'.m_author ctx' doc tt h refl,
          read by_int64 (bytes "mTtl") e.m_ttl e'.m_ttl ctx' doc fits h refl,
          read by_json (bytes "mData") e.m_data e'.m_data ctx' doc tt h refl,
        )
        refl

  -- The entries of a slice, each from its own document.
  read-written_entries :
      (t : StateSlice Json) (items : List (Bytes × Ctx))
      → All (λ item. EntryFits item.1) t
      → AreSame members (written_entries r.context (serial_entry r) t) items
      → read_entries lib.new_entry (serial_entry r) items ≡ t
  unfolding read_entries written_entries
  read-written_entries [] [] fits same = refl
  read-written_entries [] (item ∷ items) fits same = absurd same
  read-written_entries ((k, e) ∷ t) [] fits same = absurd same
  read-written_entries ((k, e) ∷ t) ((k', c) ∷ items) fits same =
      rw
        (
          same.0,
          entry_read e lib.new_entry r.context c fits.0 lib.by_context same.1,
          read-written_entries t items fits.1 same.2,
        )
        refl

  below-written_entries :
      (k : Bytes) (t : StateSlice Json)
      → All (λ item. bytes_less k item.0 ≡ true) t
      → All (λ item. bytes_less k item.0 ≡ true) (written_entries r.context (serial_entry r) t)
  unfolding written_entries
  below-written_entries k [] h = tt
  below-written_entries k ((j, e) ∷ t) h = (h.0, below-written_entries k t h.1)

  written_entries-IsSorted :
      (t : StateSlice Json) → IsSorted t → IsSorted (written_entries r.context (serial_entry r) t)
  unfolding written_entries
  written_entries-IsSorted [] h = tt
  written_entries-IsSorted ((k, e) ∷ t) h =
      (below-written_entries k t h.0, written_entries-IsSorted t h.1)

  -- With a serializer as documented: the state of a type, whose keys are in order and whose TTLs are
  -- `int64_t` values, is read back whole from the message that it is sent in.
  pub to_state_slice-from_state_slice :
      (t : StateSlice Json) → SliceFits t → to_state_slice r (from_state_slice r t) ≡ t
  unfolding to_state_slice from_state_slice
  to_state_slice-from_state_slice t fits =
      let items = written_entries r.context (serial_entry r) t in
      let written = (r.slice (serial_entry r) (bytes "stateSlice") to_json (t, r.context)).1 in
      let (items', same, read_back) =
        lib.by_slice_reads (serial_entry r) (bytes "stateSlice") items (r.parse (r.print written))
          (written_entries-IsSorted t fits.1)
          (lib.by_parse written (bytes "stateSlice")
            ∙ lib.by_slice_writes (serial_entry r) (bytes "stateSlice") t) in
      read_back ∙ read-written_entries t items' fits.0 same
