-- ===== src/Tests/Documents.antt =====
-- A small serializer: a document is the list of its members with the text of each; a text has the
-- lengths before the strings, and a map is the text of the texts of its entries.
use shared_state_async.Prelude.{
  ℕ, zero, suc, Option, none, some, List, [], ◌∷◌, ◌++◌, length, take, drop, take-append,
  drop-append, ◌≡◌, refl,
}
use shared_state_async.Prelude.Int.{ℤ, pos, negsuc}
use shared_state_async.Prelude.Map.{Map, lookup}
use shared_state_async.Prelude.Bytes.{Bytes, bytes_eq_refl, bytes_key}
use shared_state_async.State.{StateEntry, StateSlice}
use shared_state_async.Serial.{to_json, from_json, Serial, Named, Serializer}
use shared_state_async.Serial.Library.{
  IsNamed, AreSame, IsSerializer, written_entries, read_entries,
}

abbrev pub Document : Type 0
Document = Map Bytes Bytes

abbrev pub sign : ℤ → ℕ
sign (pos n) = 0
sign (negsuc n) = 1

abbrev pub size : ℤ → ℕ
size (pos n) = n
size (negsuc n) = n

abbrev pub signed : ℕ → ℕ → ℤ
signed zero n = pos n
signed (suc k) n = negsuc n

pub signed_lem : (a : ℤ) → signed (sign a) (size a) ≡ a
signed_lem (pos n) = refl
signed_lem (negsuc n) = refl

pub encode : Document → Bytes
encode [] = []
encode ((k, v) ∷ doc) = length k ∷ length v ∷ (k ++ (v ++ encode doc))

pub decode : ℕ → Bytes → Document
decode zero s = []
decode (suc n) (k ∷ v ∷ s) = (take k s, take v (drop k s)) ∷ decode n (drop v (drop k s))
decode (suc n) _ = []

pub decode-encode : (doc : Document) → decode (length doc) (encode doc) ≡ doc
unfolding encode decode
decode-encode [] = refl
decode-encode ((k, v) ∷ doc) =
    rw
      (
        take-append k (v ++ encode doc),
        drop-append k (v ++ encode doc),
        take-append v (encode doc),
        drop-append v (encode doc),
        decode-encode doc,
      )
      refl

pub print : Document → Bytes
print doc = length doc ∷ encode doc

pub parse : Bytes → Document
parse [] = []
parse (n ∷ s) = decode n s

pub parse-print : (doc : Document) → parse (print doc) ≡ doc
unfolding print parse
parse-print doc = decode-encode doc

abbrev pub int64_value : ℤ → Bytes
int64_value a = sign a ∷ size a ∷ []

abbrev pub number : ℕ → Bytes
number n = n ∷ []

abbrev pub read_text : Option Bytes → Bytes → Bytes
read_text (some a) b = a
read_text none b = b

abbrev pub read_int64 : Option Bytes → ℤ → ℤ
read_int64 (some (s ∷ n ∷ [])) b = signed s n
read_int64 _ b = b

abbrev pub read_number : Option Bytes → ℕ → ℕ
read_number (some (n ∷ [])) b = n
read_number _ b = b

-- A member is written at the front.
abbrev pub member : {A : Type 0} → (A → Bytes) → (Option Bytes → A → A) → Named Document A
member value reading n to_json (a, doc) = (a, (n, value a) ∷ doc)
member value reading n from_json (a, doc) = (reading (lookup n doc) a, doc)

pub texts : List (Bytes × Document) → Document
texts [] = []
texts ((k, doc) ∷ items) = (k, print doc) ∷ texts items

pub documents : Document → List (Bytes × Document)
documents [] = []
documents ((k, s) ∷ doc) = (k, parse s) ∷ documents doc

documents-texts : (items : List (Bytes × Document)) → documents (texts items) ≡ items
unfolding documents texts
documents-texts [] = refl
documents-texts ((k, doc) ∷ items) = rw (parse-print doc, documents-texts items) refl

abbrev pub new_entry : StateEntry ℕ
new_entry = record { m_author = []; m_ttl = pos 0; m_data = 0 }

abbrev pub read_slice : Serial Document (StateEntry ℕ) → Option Bytes → StateSlice ℕ → StateSlice ℕ
read_slice p (some s) t = read_entries new_entry p (documents (parse s))
read_slice p none t = t

abbrev pub write_slice : Serial Document (StateEntry ℕ) → StateSlice ℕ → Bytes
write_slice p t = print (texts (written_entries [] p t))

abbrev pub serializer : Serializer Document ℕ
serializer = record {
  text = member (λ a. a) read_text;
  int64 = member int64_value read_int64;
  uint32 = member number read_number;
  json = member number read_number;
  slice = λ p. member (write_slice p) (read_slice p);
  context = [];
  print = print;
  parse = parse;
}

abbrev pub members : Document → Bytes → Option Bytes
members doc n = lookup n doc

pub member-IsNamed :
    {A : Type 0} (value : A → Bytes) (reading : Option Bytes → A → A) (Fits : A → Type 0)
    → ((a b : A) → reading (some (value a)) b ≡ a)
    → IsNamed members value Fits (member value reading)
unfolding lookup
member-IsNamed value reading Fits h = record {
  keeps = λ n a doc f e. refl;
  writes = λ n k a doc f e. refl;
  reads = λ n a b doc f e. rw e (rw (h a b) refl);
}

pub AreSame-refl : (items : List (Bytes × Document)) → AreSame members items items
AreSame-refl [] = tt
AreSame-refl ((k, doc) ∷ items) = (refl, λ n. refl, AreSame-refl items)

pub slice_written :
    (p : Serial Document (StateEntry ℕ)) (n : Bytes) (t : StateSlice ℕ)
    → members (serializer.slice p n to_json (t, [])).1 n
      ≡ some (print (texts (written_entries [] p t)))
unfolding lookup
slice_written p n t = rw (bytes_eq_refl n) refl

pub slice_read :
    (p : Serial Document (StateEntry ℕ)) (n : Bytes) (items : List (Bytes × Document))
    (doc : Document)
    → members doc n ≡ some (print (texts items))
    → (serializer.slice p n from_json ([], doc)).0 ≡ read_entries new_entry p items
slice_read p n items doc e = rw (e, parse-print (texts items), documents-texts items) refl

abbrev pub documented : IsSerializer serializer
unfolding lookup
documented = record {
  V = Bytes;
  members = members;
  text_value = λ a. a;
  int64_value = int64_value;
  uint32_value = number;
  json_value = number;
  entries_value = λ items. print (texts items);
  new_entry = new_entry;
  by_text = member-IsNamed (λ a. a) read_text _ (λ a b. refl);
  by_int64 = member-IsNamed int64_value read_int64 _ (λ a b. signed_lem a);
  by_uint32 = member-IsNamed number read_number _ (λ a b. refl);
  by_json = member-IsNamed number read_number _ (λ a b. refl);
  by_context = λ k. refl;
  by_slice_writes = slice_written;
  by_slice_reads = λ p n items doc s e. (items, AreSame-refl items, slice_read p n items doc e);
  by_parse = λ doc n. rw (parse-print doc) refl;
}
