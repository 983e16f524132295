-- ===== src/Lock/Calls.antt =====
-- The calls on a lock one after the other, and the reader-writer lock that they implement.
use membridge.Common.{
  ℕ, zero, suc, ◌+◌, ◌-◌, ◌≤◌, ◌^◌, ◌<◌, ◌≡◌, refl, subst, Bool, true, false, Option, some, none,
  List, [], ◌∷◌, length, arith, ◌%◌, lt→ltb, ne→==,
}
use membridge.Codec.Value.{ℤ, pos, negsuc, i32_of_bits}
use membridge.Lock.{
  sub_one, write_locked, init, read_lock, write_lock, read_unlock, write_unlock, reader_count,
  is_write_locked,
}
use membridge.Lock.Loops.{read_lock_lem, write_lock_lem}

-- The calls on a lock.
pub data Operation : Type 0 where
  lock_read unlock_read lock_write unlock_write : Operation

-- `none`: the call is still spinning when its rounds are used up.
unfoldable pub operate : ℕ → Operation → ℕ → Option ℕ
unfolding read_lock write_lock read_unlock write_unlock
operate spins lock_read word = read_lock spins word
operate spins unlock_read word = some (read_unlock word)
operate spins lock_write word = write_lock spins word
operate spins unlock_write word = some (write_unlock word)

unfoldable pub operate_all : ℕ → List Operation → ℕ → Option ℕ
unfolding operate
operate_all spins [] word = some word
operate_all spins (o ∷ os) word = elim (operate spins o word) [
  | none ↦ none
  | some word' ↦ operate_all spins os word'
]

-- What a reader-writer lock is: held by a number of readers, or by one writer. A lock is taken where
-- nobody excludes it, and released where it is held.
pub data Held : Type 0 where
  readers : ℕ → Held
  writer : Held

abbrev pub after : Operation → Held → Option Held
after lock_read (readers n) = some (readers (n + 1))
after lock_read writer = none
after unlock_read (readers (suc n)) = some (readers n)
after unlock_read _ = none
after lock_write (readers zero) = some writer
after lock_write _ = none
after unlock_write (readers n) = none
after unlock_write writer = some (readers 0)

abbrev pub after_all : List Operation → Held → Option Held
after_all [] held = some held
after_all (o ∷ os) held = elim (after o held) [ none ↦ none | some held' ↦ after_all os held' ]

abbrev pub count : Held → ℕ
count (readers n) = n
count writer = 0

abbrev pub is_written : Held → Bool
is_written (readers n) = false
is_written writer = true

-- The word as an `i32`: the number of readers, or -1.
abbrev pub number : Held → ℤ
number (readers n) = pos n
number writer = negsuc 0

abbrev pub Encodes : ℕ → Held → Type 0
Encodes word held = (word < 2 ^ 32) × (i32_of_bits word ≡ number held)

abbrev pub Matches : Option ℕ → Option Held → Type 0
Matches (some word) (some held) = Encodes word held
Matches none none = Unit
Matches _ _ = ⊥

readers_word : (word n : ℕ) → Encodes word (readers n) → (word ≡ n) × (n < 2 ^ 31)
readers_word word n (small, e) = ground arith

writer_word : (word : ℕ) → Encodes word writer → word ≡ 2 ^ 32 - 1
writer_word word (small, e) = ground arith

readers-Encodes : (n : ℕ) → n < 2 ^ 31 → Encodes n (readers n)
readers-Encodes n h = (omega (arith, h), rw (lt→ltb n (2 ^ 31) h) refl)

more : (n : ℕ) → n + 1 < 2 ^ 31 → (n + 1) % 2 ^ 32 ≡ n + 1
more n h = omega (arith, h)

after_cons :
    (o : Operation) (os : List Operation) (held held' : Held)
    → after_all (o ∷ os) held ≡ some held'
    → (held1 : Held) × (after o held ≡ some held1) × (after_all os held1 ≡ some held')
after_cons o os held held' e = by_next (after o held) refl
  where
    by_next :
        (next : Option Held)
        → after o held ≡ next
        → (held1 : Held) × (after o held ≡ some held1) × (after_all os held1 ≡ some held')
    by_next none stuck = absurd (let e' = rw (after_all, stuck) at e in cc)
    by_next (some held1) next = (held1, next, rw (after_all, next) at e)

module _ (spins : ℕ) (some_fuel : 0 < spins) where
  read_lock-Matches :
      (word : ℕ) (held : Held)
      → Encodes word held
      → count held + 1 < 2 ^ 31
      → Matches (read_lock spins word) (after lock_read held)
  read_lock-Matches word (readers n) code few =
      let (same, small) = readers_word word n code in
      rw (read_lock_lem spins word some_fuel, same, lt→ltb n (2 ^ 31) small, more n few)
        (readers-Encodes (n + 1) few)
  read_lock-Matches word writer code few =
      rw (read_lock_lem spins word some_fuel, writer_word word code) tt

  write_lock-Matches :
      (word : ℕ) (held : Held)
      → Encodes word held
      → Matches (write_lock spins word) (after lock_write held)
  write_lock-Matches word (readers zero) code =
      let (same, small) = readers_word word 0 code in
      rw (write_lock_lem spins word some_fuel, same) (omega arith, refl)
  write_lock-Matches word (readers (suc n)) code =
      let (same, small) = readers_word word (suc n) code in
      rw (write_lock_lem spins word some_fuel, same, ne→== (suc n) 0 (omega arith)) tt
  write_lock-Matches word writer code =
      rw (write_lock_lem spins word some_fuel, writer_word word code) tt

  -- A call returns, and has done what it should.
  abbrev Does : Operation → ℕ → Held → Held → Type 0
  Does o word held held' =
      (word' : ℕ) × (operate spins o word ≡ some word')
      × Encodes word' held'
      × (count held' ≤ count held + 1)

  does :
      (o : Operation) (word : ℕ) (held : Held) {next held' : Held}
      → Does o word held next
      → some next ≡ some held'
      → Does o word held held'
  does o word held {next} {held'} done e =
      let same : next ≡ held' = cc in subst (Does o word held) same done

  operate-Does :
      (o : Operation) (word : ℕ) (held held' : Held)
      → Encodes word held
      → count held + 1 < 2 ^ 31
      → after o held ≡ some held'
      → Does o word held held'
  unfolding operate read_unlock write_unlock
  operate-Does lock_read word (readers n) held' code few e =
      let (same, small) = readers_word word n code in
      does lock_read word (readers n)
        (
          n + 1,
          rw (read_lock_lem spins word some_fuel, same, lt→ltb n (2 ^ 31) small, more n few) refl,
          readers-Encodes (n + 1) few,
          omega arith,
        )
        e
  operate-Does lock_read word writer held' code few e = absurd (cc)
  operate-Does unlock_read word (readers zero) held' code few e = absurd (cc)
  operate-Does unlock_read word (readers (suc n)) held' code few e =
      let (same, small) = readers_word word (suc n) code in
      let down : sub_one word ≡ n = omega (arith, same, small) in
      does unlock_read word (readers (suc n))
        (n, rw down refl, readers-Encodes n (omega (arith, small)), omega arith) e
  operate-Does unlock_read word writer held' code few e = absurd (cc)
  operate-Does lock_write word (readers zero) held' code few e =
      let (same, small) = readers_word word 0 code in
      does lock_write word (readers zero)
        (
          write_locked,
          rw (write_lock_lem spins word some_fuel, same) refl,
          (omega arith, refl),
          omega arith,
        )
        e
  operate-Does lock_write word (readers (suc n)) held' code few e = absurd (cc)
  operate-Does lock_write word writer held' code few e = absurd (cc)
  operate-Does unlock_write word (readers n) held' code few e = absurd (cc)
  operate-Does unlock_write word writer held' code few e =
      does unlock_write word writer (0, refl, readers-Encodes 0 (omega arith), omega arith) e

  operate_all-Encodes :
      (os : List Operation) (word : ℕ) (held held' : Held)
      → Encodes word held
      → count held + length os < 2 ^ 31
      → after_all os held ≡ some held'
      → (word' : ℕ) × (operate_all spins os word ≡ some word')
        × Encodes word' held'
        × (count held' ≤ count held + length os)
  unfolding operate_all
  operate_all-Encodes [] word held held' code few e =
      let same : held ≡ held' = cc in
      (
        word,
        refl,
        subst (Encodes word) same code,
        subst (λ h. count h ≤ count held + 0) same (omega arith),
      )
  operate_all-Encodes (o ∷ os) word held held' code few e =
      let (held1, next, rest) = after_cons o os held held' e in
      let (word1, ran, code1, grows) =
        operate-Does o word held held1 code (omega (arith, few)) next in
      let (word2, ran2, code2, grows2) =
        operate_all-Encodes os word1 held1 held' code1 (omega (arith, few, grows)) rest in
      (word2, rw (operate_all, ran) ran2, code2, omega (arith, grows, grows2))

  observed :
      (word : ℕ) (held : Held)
      → Encodes word held
      → (reader_count word ≡ count held) × (is_write_locked word ≡ is_written held)
  unfolding reader_count is_write_locked
  observed word (readers zero) code =
      let (same, small) = readers_word word 0 code in rw same (refl, refl)
  observed word (readers (suc n)) code =
      let (same, small) = readers_word word (suc n) code in rw same (ground (arith, small))
  observed word writer code = rw (writer_word word code) (refl, refl)

  -- Whatever calls a reader-writer lock allows, fewer than 2 ^ 31 - 1 and one after the other from `init`
  -- on: however many rounds each loop is given, one or more, all of them return, and the word is then,
  -- as an `i32`, the number of readers, or -1 for a writer; one more `read_lock` returns, with one reader
  -- more, exactly where no writer holds the lock, and one more `write_lock`, with the writer, exactly
  -- where nobody does; and `reader_count` and `is_write_locked` tell who does.
  pub calls_refine :
      (os : List Operation) (held : Held)
      → length os < 2 ^ 31 - 1
      → after_all os (readers 0) ≡ some held
      → (word : ℕ) × (operate_all spins os init ≡ some word)
        × Encodes word held
        × Matches (read_lock spins word) (after lock_read held)
        × Matches (write_lock spins word) (after lock_write held)
        × (reader_count word ≡ count held)
        × (is_write_locked word ≡ is_written held)
  calls_refine os held few allowed =
      let (word, ran, code, grows) =
        operate_all-Encodes os init (readers 0) held (readers-Encodes 0 (omega arith))
          (omega (arith, few)) allowed in
      let (readers_told, writer_told) = observed word held code in
      (
        word,
        ran,
        code,
        read_lock-Matches word held code (omega (arith, few, grows)),
        write_lock-Matches word held code,
        readers_told,
        writer_told,
      )
