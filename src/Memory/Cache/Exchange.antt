-- ===== src/Memory/Cache/Exchange.antt =====
-- The atomic operations of a cache over a memory that keeps its contract.
use mathlib.Core.Path.{subst}
use riscv_emulator.Base.{
  ℕ, ◌+◌, ◌^◌, ◌<◌, ◌≡◌, refl, sym, ap, ◌∙◌, arith, true, false, Option, none, some, ◌==◌,
  if◌then◌else◌, Bool-cases, Option-cases, inl, inr, bit_and, bit_or, bit_xor,
}
use riscv_emulator.Word.{u32, sub32}
use riscv_emulator.Memory.Interface.{MemoryInterface, Implements, IsAddress}
use riscv_emulator.Memory.Mmu.{Mmu}
use riscv_emulator.Memory.Ddr.Atomics.{
  AtomicOp, adds, swaps, compare_swaps, fetch_adds, fetch_subs, fetch_ands, fetch_ors, fetch_xors,
  result, IsWordOp, result-lt,
}
use riscv_emulator.Memory.Cache.{Cache, get_set_index, get_tag, search_tag, put_entry, dropped}
use riscv_emulator.Memory.Cache.Access.{translate_by, translate_address, invalidate}
use riscv_emulator.Memory.Cache.Atomics.{
  count_atomic, exchange, update, atomic_add, atomic_swap, atomic_compare_and_swap,
  atomic_fetch_and_add, atomic_fetch_and_sub, atomic_fetch_and_and, atomic_fetch_and_or,
  atomic_fetch_and_xor,
}
use riscv_emulator.Memory.Cache.Search.{search_tag-some, search_tag-none}
use riscv_emulator.Memory.Cache.Replace.{rest_of, content-rest, replaced-AreLines}
use riscv_emulator.Memory.Cache.Hold.{IsSound, IsSound-rest}
use riscv_emulator.Memory.Cache.Behind.{
  same_line, IsBehind, gone-Replacement, gone-content, missed-AreLines, missed-content,
}

unfoldable pub cache_atomic :
    {M : Type 0}
    → Option (MemoryInterface M)
    → Option (ℕ → ℕ)
    → Cache
    → M
    → ℕ
    → AtomicOp
    → ℕ
    → Option (ℕ × Cache × M)
cache_atomic i walk c m addr (adds v) core_id = atomic_add i walk c m addr v core_id
cache_atomic i walk c m addr (swaps v) core_id = atomic_swap i walk c m addr v core_id
cache_atomic i walk c m addr (compare_swaps expected desired) core_id =
    atomic_compare_and_swap i walk c m addr expected desired core_id
cache_atomic i walk c m addr (fetch_adds v) core_id = atomic_fetch_and_add i walk c m addr v core_id
cache_atomic i walk c m addr (fetch_subs v) core_id = atomic_fetch_and_sub i walk c m addr v core_id
cache_atomic i walk c m addr (fetch_ands v) core_id = atomic_fetch_and_and i walk c m addr v core_id
cache_atomic i walk c m addr (fetch_ors v) core_id = atomic_fetch_and_or i walk c m addr v core_id
cache_atomic i walk c m addr (fetch_xors v) core_id = atomic_fetch_and_xor i walk c m addr v core_id

-- What an operation stores, if it does.
abbrev stores : AtomicOp → ℕ → Option ℕ
stores (compare_swaps expected desired) old = if old == expected then some desired else none
stores (adds v) old = some (u32 (old + v))
stores (swaps v) old = some v
stores (fetch_adds v) old = some (u32 (old + v))
stores (fetch_subs v) old = some (sub32 old v)
stores (fetch_ands v) old = some (bit_and old v)
stores (fetch_ors v) old = some (bit_or old v)
stores (fetch_xors v) old = some (bit_xor old v)

abbrev after : ℕ → Option ℕ → ℕ
after old none = old
after old (some v) = v

after-stores : (op : AtomicOp) (old : ℕ) → after old (stores op old) ≡ result op old
after-stores (adds v) old = refl
after-stores (swaps v) old = refl
after-stores (fetch_adds v) old = refl
after-stores (fetch_subs v) old = refl
after-stores (fetch_ands v) old = refl
after-stores (fetch_ors v) old = refl
after-stores (fetch_xors v) old = refl
after-stores (compare_swaps expected desired) old = elim (Bool-cases (old == expected)) [
  | inl same ↦ rw same refl
  | inr apart ↦ rw apart refl
]

cache_atomic-update :
    {M : Type 0} (i : Option (MemoryInterface M)) (walk : Option (ℕ → ℕ)) (c : Cache) (m : M)
    (addr : ℕ) (op : AtomicOp) (core_id : ℕ)
    → cache_atomic i walk c m addr op core_id ≡ update i walk c m addr core_id (stores op)
unfolding cache_atomic atomic_add atomic_swap atomic_compare_and_swap atomic_fetch_and_add
    atomic_fetch_and_sub atomic_fetch_and_and atomic_fetch_and_or atomic_fetch_and_xor
cache_atomic-update i walk c m addr (adds v) core_id = refl
cache_atomic-update i walk c m addr (swaps v) core_id = refl
cache_atomic-update i walk c m addr (fetch_adds v) core_id = refl
cache_atomic-update i walk c m addr (fetch_subs v) core_id = refl
cache_atomic-update i walk c m addr (fetch_ands v) core_id = refl
cache_atomic-update i walk c m addr (fetch_ors v) core_id = refl
cache_atomic-update i walk c m addr (fetch_xors v) core_id = refl
cache_atomic-update i walk c m addr (compare_swaps expected desired) core_id = refl

module _ {M : Type 0} (i : MemoryInterface M) (size : ℕ) (Good : M → Type 0) (view : M → ℕ → ℕ)
    (law : Implements i size Good view) where
  -- An exchange of the word of memory at `a` by `v`, with the line thrown away.
  abbrev pub Exchanges : Cache → M → ℕ → ℕ → Option (ℕ × Cache × M) → Type 0
  Exchanges c m a v none = ⊥
  Exchanges c m a v (some (old, c', m')) =
      (old ≡ view m a) × IsBehind i size Good view law c m a v c' m'

  exchange-view :
      (m : M) (a old : ℕ) (o : Option ℕ) (b : ℕ)
      → Good m
      → IsAddress size a
      → after old o < 2 ^ 32
      → old ≡ view m a
      → IsAddress size b
      → view (exchange i m a o) b ≡ (if b == a then after old o else view m b)
  exchange-view m a old none b good at fits e at' = elim (Bool-cases (b == a)) [
    | inl same ↦ let eq : b ≡ a = ground arith in rw same (ap (view m) eq ∙ sym e)
    | inr apart ↦ rw apart refl
  ]
  exchange-view m a old (some v) b good at fits e at' = law.write_word_lem m a v b good at fits at'

  exchange-Good :
      (m : M) (a old : ℕ) (o : Option ℕ)
      → Good m
      → IsAddress size a
      → after old o < 2 ^ 32
      → Good (exchange i m a o)
  exchange-Good m a old none good at fits = good
  exchange-Good m a old (some v) good at fits = law.write_word_good m a v good at fits

  -- The count does not show.
  counted :
      (c : Cache) (m m' : M) (a v core_id : ℕ) (c1 : Cache)
      → IsBehind i size Good view law c m a v c1 m'
      → IsBehind i size Good view law c m a v (count_atomic c1 core_id) m'
  counted c m m' a v core_id c1 h =
      let stats = (count_atomic c1 core_id).stats in
      record {
        sound = IsSound-rest i size Good view law c1 m' stats c1.mmu h.sound;
        content_lem =
            λ b at. content-rest c1 stats c1.mmu c1.lru_lists (view m') b ∙ h.content_lem b at;
      }

  -- The line of `a` thrown away while memory changes at `a`.
  invalidate-IsBehind :
      (c : Cache) (m m' : M) (a v core_id : ℕ)
      → IsSound i size Good view law c m
      → Good m'
      → IsAddress size a
      → v < 2 ^ 32
      → ((b : ℕ) → IsAddress size b → view m' b ≡ (if b == a then v else view m b))
      → IsBehind i size Good view law c m a v (count_atomic (invalidate c a) core_id) m'
  unfolding invalidate
  invalidate-IsBehind c m m' a v core_id h good at fits memory =
      let s = get_set_index c a in
      elim (Option-cases (search_tag (c.cache_entries s) (get_tag c a) 0 c.config.associativity)) [
        | inl missed ↦
            let misses = λ (w : ℕ) (lt : w < c.config.associativity).
              search_tag-none (c.cache_entries s) (get_tag c a) c.config.associativity w missed
                lt in
            let same : IsBehind i size Good view law c m a v (count_atomic c core_id) m' =
              counted c m m' a v core_id c record {
                sound = record {
                  lines = missed-AreLines i size Good view law c m m' a v h.lines misses memory;
                  lru = h.lru;
                  good = good;
                };
                content_lem = λ b at'.
                    missed-content i size Good view law c m m' a v h.lines misses memory b at';
              } in
            rw missed same
        | inr (w, found) ↦
            let (w_lt, hit) =
              search_tag-some (c.cache_entries s) (get_tag c a) c.config.associativity w found in
            let e = dropped (c.cache_entries s w) in
            let back : IsBehind i size Good view law c m a v
                (count_atomic (put_entry c s w e) core_id) m' =
              counted c m m' a v core_id (put_entry c s w e) record {
                sound = record {
                  lines = replaced-AreLines size (view m) (view m') c s w e (
                      gone-Replacement i size Good view law c m m' a v w e h.lines at fits w_lt hit
                        refl memory);
                  lru = h.lru;
                  good = good;
                };
                content_lem = λ b at'.
                    gone-content i size Good view law c m m' a v w e h.lines at fits w_lt hit refl
                      memory b at';
              } in
            rw found back
      ]

  -- Nor does the MMU.
  IsBehind-mmu :
      (c c1 : Cache) (m m' : M) (a v : ℕ) (mmu : Option Mmu)
      → IsBehind i size Good view law (rest_of c c.stats mmu c.lru_lists) m a v c1 m'
      → IsBehind i size Good view law c m a v c1 m'
  IsBehind-mmu c c1 m m' a v mmu h = record {
    sound = h.sound;
    content_lem = λ b at.
        h.content_lem b at
        ∙ ap (λ (x : ℕ). if b == a then v else (if same_line c a b then view m b else x))
            (content-rest c c.stats mmu c.lru_lists (view m) b);
  }

  -- Every atomic operation of a cache over a memory returns the word of the memory below, not the one that the
  -- cache has, stores the new word that its name says there, and throws the line away: its other words become
  -- those of memory, all other lines keep their content. The cache is sound, the physical address aligned and in
  -- range, the operand a word.
  pub cache_atomic-Exchanges :
      (walk : Option (ℕ → ℕ)) (c : Cache) (m : M) (addr : ℕ) (op : AtomicOp) (core_id : ℕ)
      → IsSound i size Good view law c m
      → IsAddress size (translate_address walk c addr true false).0
      → IsWordOp op
      → Exchanges c m
          (translate_address walk c addr true false).0
          (result op (view m (translate_address walk c addr true false).0))
          (cache_atomic (some i) walk c m addr op core_id)
  unfolding update translate_address
  cache_atomic-Exchanges walk c m addr op core_id h at word =
      let t = translate_by walk c.mmu addr true false in
      let a = t.0 in
      let c' = rest_of c c.stats t.1 c.lru_lists in
      let got = i.read_word m a in
      let value : got.0 ≡ view m a = law.read_word_lem m a h.good at in
      let good = law.read_word_good m a h.good at in
      let left : after got.0 (stores op got.0) ≡ result op (view m a) =
        after-stores op got.0 ∙ ap (result op) value in
      let fits : result op (view m a) < 2 ^ 32 =
        result-lt op (view m a) word (law.view_lt m a h.good at) in
      let fits' : after got.0 (stores op got.0) < 2 ^ 32 = rw left fits in
      let m' = exchange i got.1 a (stores op got.0) in
      let value' : got.0 ≡ view got.1 a = value ∙ sym (law.read_word_keeps m a a h.good at at) in
      let memory : (b : ℕ)
          → IsAddress size b
          → view m' b ≡ (if b == a then result op (view m a) else view m b) =
        λ b at'.
          exchange-view got.1 a got.0 (stores op got.0) b good at fits' value' at'
          ∙ ap (λ (x : ℕ). if b == a then x else view got.1 b) left
          ∙ ap (λ (x : ℕ). if b == a then result op (view m a) else x)
              (law.read_word_keeps m a b h.good at at') in
      subst (Exchanges c m a (result op (view m a)))
        (sym (cache_atomic-update (some i) walk c m addr op core_id))
        (
          value,
          IsBehind-mmu c (count_atomic (invalidate c' a) core_id) m m' a (result op (view m a)) t.1
              (invalidate-IsBehind c' m m' a (result op (view m a)) core_id
                (IsSound-rest i size Good view law c m c.stats t.1 h)
                (exchange-Good got.1 a got.0 (stores op got.0) good at fits') at fits memory),
        )
