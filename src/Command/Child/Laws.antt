-- ===== src/Command/Child/Laws.antt =====
-- The standard input and output of a command that src/async_command.cc starts, and its arguments.
use mathlib.Core.List.{append-nil, append_assoc}
use shared_state_async.Prelude.{
  ℕ, ◌<◌, Bool, true, false, ◌||◌, Option, none, some, List, [], ◌∷◌, ◌++◌, All, map, ◌==◌,
  if◌then◌else◌, ◌≡◌, ◌≢◌, refl, sym, ap, ◌∙◌, arith,
}
use shared_state_async.Prelude.Bytes.{Bytes}
use shared_state_async.Command.Child.{ChildCalls, is_space, flush, words_from, arguments, map_pipes}

-- What `close` and `dup2` document: which open file a descriptor stands for.
pub record IsPosix {W : Type 0} (os : ChildCalls W) (File : Type 0) : Type 0 where
  pub file : W → ℕ → Option File
  pub by_close : (fd j : ℕ) (w : W) → file (os.close fd w) j ≡ (if fd == j then none else file w j)
  pub by_dup2 :
      (a b j : ℕ) (f : File) (w : W)
      → file w a ≡ some f
      → file (os.dup2 a b w) j ≡ (if b == j then some f else file w j)

-- The ends of the pipes are four descriptors, none of them the standard input or output.
pub record AreApart (p q : ℕ × ℕ) : Type 0 where
  pub ends : (p.0 ≢ p.1) × (p.0 ≢ q.0) × (p.0 ≢ q.1) × (q.1 ≢ p.1) × (q.1 ≢ q.0)
  pub above : (1 < p.0) × (1 < p.1) × (1 < q.0) × (1 < q.1)

abbrev pub is_end : ℕ × ℕ → ℕ × ℕ → ℕ → Bool
is_end p q j = (p.0 == j || p.1 == j) || (q.0 == j || q.1 == j)

module _ {W File : Type 0} (os : ChildCalls W) (law : IsPosix os File) (p q : ℕ × ℕ) where
  -- Where the ends of the pipes are apart and none of them is a standard descriptor, with the calls
  -- as documented: in the child the standard input is the read end of the pipe from the parent, the
  -- standard output is the write end of the pipe to it, the ends themselves are closed, and every
  -- other descriptor is as it was.
  pub map_pipes_lem :
      (r t : File) (w : W)
      → AreApart p q
      → law.file w p.0 ≡ some r
      → law.file w q.1 ≡ some t
      → (j : ℕ)
      → law.file (map_pipes os p q w) j ≡ (
          if j == 0
          then some r
          else if j == 1
          then some t
          else if is_end p q j
          then none
          else law.file w j)
  unfolding map_pipes
  map_pipes_lem r t w apart hr ht j =
      let w₁ = os.close p.1 w in
      let w₂ = os.close q.0 w₁ in
      let w₃ = os.dup2 p.0 0 w₂ in
      let w₄ = os.close p.0 w₃ in
      let w₅ = os.dup2 q.1 1 w₄ in
      let read : law.file w₂ p.0 ≡ some r =
        ground (arith, hr, law.by_close q.0 p.0 w₁, law.by_close p.1 p.0 w) in
      let write : law.file w₄ q.1 ≡ some t = ground (
        arith,
        ht,
        law.by_close p.0 q.1 w₃,
        law.by_dup2 p.0 0 q.1 r w₂ read,
        law.by_close q.0 q.1 w₁,
        law.by_close p.1 q.1 w,
      ) in
      ground (
        arith,
        law.by_close q.1 j w₅,
        law.by_dup2 q.1 1 j t w₄ write,
        law.by_close p.0 j w₃,
        law.by_dup2 p.0 0 j r w₂ read,
        law.by_close q.0 j w₁,
        law.by_close p.1 j w,
      )

  -- Where the parent runs without a standard input, so that the pipe to the child is read at 0, the
  -- child has no standard input.
  pub map_pipes-no_std_in :
      (r t : File) (w : W)
      → p.0 ≡ 0
      → (q.1 ≢ 0) × (q.1 ≢ p.1) × (q.1 ≢ q.0) × (p.1 ≢ 0) × (q.0 ≢ 0)
      → law.file w p.0 ≡ some r
      → law.file w q.1 ≡ some t
      → law.file (map_pipes os p q w) 0 ≡ none
  unfolding map_pipes
  map_pipes-no_std_in r t w e apart hr ht =
      let w₁ = os.close p.1 w in
      let w₂ = os.close q.0 w₁ in
      let w₃ = os.dup2 p.0 0 w₂ in
      let w₄ = os.close p.0 w₃ in
      let w₅ = os.dup2 q.1 1 w₄ in
      let read : law.file w₂ p.0 ≡ some r =
        ground (arith, hr, law.by_close q.0 p.0 w₁, law.by_close p.1 p.0 w) in
      let write : law.file w₄ q.1 ≡ some t = ground (
        arith,
        ht,
        law.by_close p.0 q.1 w₃,
        law.by_dup2 p.0 0 q.1 r w₂ read,
        law.by_close q.0 q.1 w₁,
        law.by_close p.1 q.1 w,
      ) in
      ground (arith, law.by_close q.1 0 w₅, law.by_dup2 q.1 1 0 t w₄ write, law.by_close p.0 0 w₃)

-- A text as white space, words each with the white space after it, and what comes last.
abbrev pub spelled : List (Bytes × Bytes) → Bytes → Bytes
spelled [] last = last
spelled ((word, gap) ∷ items) last = word ++ (gap ++ spelled items last)

abbrev pub IsSpace : Bytes → Type 0
IsSpace = All (λ c. is_space c ≡ true)

abbrev pub IsWord : Bytes → Type 0
IsWord = All (λ c. is_space c ≡ false)

abbrev pub AreItems : List (Bytes × Bytes) → Type 0
AreItems = All (λ item. (item.0 ≢ []) × IsWord item.0 × (item.1 ≢ []) × IsSpace item.1)

words_from-gap : (gap s : Bytes) → IsSpace gap → words_from [] (gap ++ s) ≡ words_from [] s
unfolding words_from
words_from-gap [] s h = refl
words_from-gap (c ∷ gap) s h = rw (h.0, words_from) (words_from-gap gap s h.1)

words_from-word :
    (word cur s : Bytes) → IsWord word → words_from cur (word ++ s) ≡ words_from (cur ++ word) s
unfolding words_from
words_from-word [] cur s h = rw append-nil refl
words_from-word (c ∷ word) cur s h =
    rw (h.0, words_from)
      (words_from-word word (cur ++ c ∷ []) s h.1
        ∙ ap (λ (w : Bytes). words_from w s) (append_assoc cur (c ∷ []) word))

-- A word ends at white space.
words_from-end :
    (cur gap s : Bytes)
    → gap ≢ []
    → IsSpace gap
    → words_from cur (gap ++ s) ≡ flush cur (words_from [] s)
unfolding words_from
words_from-end cur [] s n h = absurd (n refl)
words_from-end cur (c ∷ gap) s n h =
    rw (h.0, words_from) (ap (flush cur) (words_from-gap gap s h.1))

flush_word : (word : Bytes) (rest : List Bytes) → word ≢ [] → flush word rest ≡ word ∷ rest
flush_word [] rest n = absurd (n refl)
flush_word (c ∷ word) rest n = refl

words_from-spelled :
    (items : List (Bytes × Bytes)) (last : Bytes)
    → AreItems items
    → IsWord last
    → words_from [] (spelled items last) ≡ map (λ item. item.0) items ++ flush last []
unfolding words_from
words_from-spelled [] last h l =
    ap (words_from []) (sym (append-nil last)) ∙ words_from-word last [] [] l
words_from-spelled ((word, gap) ∷ items) last h l =
    words_from-word word [] (gap ++ spelled items last) h.0.1
    ∙ words_from-end word gap (spelled items last) h.0.2 h.0.3
    ∙ flush_word word (words_from [] (spelled items last)) h.0.0
    ∙ ap (◌∷◌ word) (words_from-spelled items last h.1 l)

-- The arguments are the words of the command, in order, where it is any white space, words with
-- white space after each, and what comes last, a word or nothing.
pub arguments_lem :
    (gap : Bytes) (items : List (Bytes × Bytes)) (last : Bytes)
    → IsSpace gap
    → AreItems items
    → IsWord last
    → arguments (gap ++ spelled items last) ≡ map (λ item. item.0) items ++ flush last []
unfolding arguments
arguments_lem gap items last g h l = words_from-gap gap _ g ∙ words_from-spelled items last h l
