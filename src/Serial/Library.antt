-- ===== src/Serial/Library.antt =====
-- What the serializer library documents, as far as src/sharedstate.cc relies on it.
use shared_state_async.Prelude.{
  ℕ, ◌<◌, ◌^◌, true, Option, none, some, List, [], ◌∷◌, All, if◌then◌else◌, ◌≡◌,
}
use shared_state_async.Prelude.Int.{ℤ, IsInt64}
use shared_state_async.Prelude.Bytes.{Bytes, bytes_eq, bytes_less, bytes_key}
use shared_state_async.State.{DataTypeConf, StateEntry, StateSlice}
use shared_state_async.Wire.Message.{NetworkStats}
use shared_state_async.Serial.{to_json, from_json, Serial, Named, Serializer}

-- `V` has the JSON values that members of a document can have.
module _ {Ctx V : Type 0} (members : Ctx → Bytes → Option V) where
  abbrev pub IsNew : Ctx → Type 0
  IsNew ctx = (k : Bytes) → members ctx k ≡ none

  -- A value that fits is written as a new member and stays as it is, other members stay too, and a
  -- member that holds such a value is read from.
  pub record IsNamed {A : Type 0} (value : A → V) (Fits : A → Type 0) (p : Named Ctx A)
      : Type 0 where
    pub keeps :
        (n : Bytes) (a : A) (ctx : Ctx)
        → Fits a
        → members ctx n ≡ none
        → (p n to_json (a, ctx)).0 ≡ a
    pub writes :
        (n k : Bytes) (a : A) (ctx : Ctx)
        → Fits a
        → members ctx n ≡ none
        → members (p n to_json (a, ctx)).1 k
          ≡ (if bytes_eq n k then some (value a) else members ctx k)
    pub reads :
        (n : Bytes) (a b : A) (ctx : Ctx)
        → Fits a
        → members ctx n ≡ some (value a)
        → p n from_json (b, ctx) ≡ (a, ctx)

abbrev pub whole : {A : Type 0} → A → A → A
whole a b = a

-- What an object is written to is read back, whatever the variable held before, but for the parts
-- that the document does not hold.
abbrev pub ReadsBack : {Ctx A : Type 0} → (A → A → A) → Serial Ctx A → A → A → Ctx → Type 0
ReadsBack merged p a b ctx =
    ((p to_json (a, ctx)).0 ≡ a)
    × (p from_json (b, (p to_json (a, ctx)).1) ≡ (merged a b, (p to_json (a, ctx)).1))

-- So it is in a new document.
abbrev pub RoundTrips :
    {Ctx V A : Type 0} → (Ctx → Bytes → Option V) → (A → Type 0) → Serial Ctx A → Type 0
RoundTrips {Ctx} {A = A} members Fits p =
    (a b : A) (ctx : Ctx) → Fits a → IsNew members ctx → ReadsBack whole p a b ctx

-- The order in which `std::map` keeps its keys.
abbrev pub IsSorted : {A : Type 0} → List (Bytes × A) → Type 0
IsSorted [] = Unit
IsSorted ((k, a) ∷ m) = All (λ item. bytes_less k item.0 ≡ true) m × IsSorted m

abbrev pub EntryFits : {Json : Type 0} → StateEntry Json → Type 0
EntryFits e = IsInt64 e.m_ttl

abbrev pub SliceFits : {Json : Type 0} → StateSlice Json → Type 0
SliceFits t = All (λ item. EntryFits item.1) t × IsSorted t

-- Each entry of a slice in a document of its own.
unfoldable pub written_entries :
    {Ctx Json : Type 0} → Ctx → Serial Ctx (StateEntry Json) → StateSlice Json → List (Bytes × Ctx)
written_entries new p [] = []
written_entries new p ((k, e) ∷ t) = (k, (p to_json (e, new)).1) ∷ written_entries new p t

-- What is read from such documents, each into a new entry.
unfoldable pub read_entries :
    {Ctx Json : Type 0}
    → StateEntry Json
    → Serial Ctx (StateEntry Json)
    → List (Bytes × Ctx)
    → StateSlice Json
read_entries e p [] = []
read_entries e p ((k, ctx) ∷ items) = (k, (p from_json (e, ctx)).0) ∷ read_entries e p items

-- The same keys, and documents with the same members.
abbrev pub AreSame :
    {Ctx V : Type 0} → (Ctx → Bytes → Option V) → List (Bytes × Ctx) → List (Bytes × Ctx) → Type 0
AreSame members [] [] = Unit
AreSame members ((k, c) ∷ items) ((k', c') ∷ items') =
    (k' ≡ k) × ((n : Bytes) → members c' n ≡ members c n) × AreSame members items items'
AreSame members [] (_ ∷ _) = ⊥
AreSame members (_ ∷ _) [] = ⊥

-- What the serializer library does. The values that it writes for different types may be the same
-- JSON value or not. A map is written as the sequence of its entries, each processed by itself; a
-- map that is empty takes what is read from such a sequence with ascending keys, from documents with
-- the members that were written. The text of a document is parsed to one with the same members.
pub record IsSerializer {Ctx Json : Type 0} (r : Serializer Ctx Json) : Type 1 where
  pub V : Type 0
  pub members : Ctx → Bytes → Option V
  pub text_value : Bytes → V
  pub int64_value : ℤ → V
  pub uint32_value : ℕ → V
  pub json_value : Json → V
  pub entries_value : List (Bytes × Ctx) → V
  pub new_entry : StateEntry Json
  pub by_text : IsNamed members text_value (λ bs. Unit) r.text
  pub by_int64 : IsNamed members int64_value IsInt64 r.int64
  pub by_uint32 : IsNamed members uint32_value (λ n. n < 2 ^ 32) r.uint32
  pub by_json : IsNamed members json_value (λ v. Unit) r.json
  pub by_context : IsNew members r.context
  pub by_slice_writes :
      (p : Serial Ctx (StateEntry Json)) (n : Bytes) (t : StateSlice Json)
      → members (r.slice p n to_json (t, r.context)).1 n
        ≡ some (entries_value (written_entries r.context p t))
  pub by_slice_reads :
      (p : Serial Ctx (StateEntry Json)) (n : Bytes) (items : List (Bytes × Ctx)) (ctx : Ctx)
      → IsSorted items
      → members ctx n ≡ some (entries_value items)
      → (items' : List (Bytes × Ctx)) × AreSame members items items'
        × ((r.slice p n from_json ([], ctx)).0 ≡ read_entries new_entry p items')
  pub by_parse : (ctx : Ctx) (n : Bytes) → members (r.parse (r.print ctx)) n ≡ members ctx n

-- The peer of a record of statistics is not in the document.
abbrev pub without_peer :
    {Addr : Type 0} → NetworkStats Addr → NetworkStats Addr → NetworkStats Addr
without_peer a b = record a { m_peer = b.m_peer }

abbrev pub ConfFits : DataTypeConf → Type 0
ConfFits c = IsInt64 c.m_update_interval × IsInt64 c.m_bleach_ttl

abbrev pub StatsFit : {Addr : Type 0} → NetworkStats Addr → Type 0
StatsFit s =
    (s.m_ts < 2 ^ 63)
    × (s.m_rtt_ext < 2 ^ 63)
    × (s.m_up_bw_mbs_ext < 2 ^ 32)
    × (s.m_down_bw_mbs_ext < 2 ^ 32)
