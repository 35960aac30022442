-- ===== src/Shared/Names.antt =====
-- Looking up a name.
use so_realtime.Prelude.{
  ℕ, zero, suc, ◌+◌, ◌-◌, ◌≤◌, ◌<◌, ◌≡◌, ◌≢◌, refl, ap, ◌∙◌, Bool, true, false, Option, none, some,
  List, get_or, ◌==◌, minus_one, add64, arith, done,
}
use so_realtime.Util.{strcmp}
use so_realtime.Shared.{Shared, Table, max_blocks, find_from, place_entry, shmget}

-- The entry has another name, or there is none.
abbrev pub Unnamed : List ℕ → Option Shared → Type 0
Unnamed text none = Unit
Unnamed text (some s) = strcmp s.text text ≢ 0

module _ (text : List ℕ) (mems : List (Option Shared)) where
  find_past :
      (j n pos : ℕ) (o : Option Shared)
      → get_or mems j none ≡ o
      → Unnamed text o
      → (pos' : ℕ) × (find_from j (suc n) mems text pos ≡ find_from (j + 1) n mems text pos')
  unfolding find_from
  find_past j n pos none e miss = (j, rw (find_from, e))
  find_past j n pos (some s) e miss =
      let ne : (strcmp s.text text == 0) ≡ false = ground arith in (pos, rw (find_from, e, ne))

  find_reaches :
      (s : Shared) (k d j n pos : ℕ)
      → get_or mems k none ≡ some s
      → strcmp s.text text ≡ 0
      → j + d ≡ k
      → ((i : ℕ) → j ≤ i → i < k → Unnamed text (get_or mems i none))
      → find_from j (d + suc n) mems text pos ≡ (true, k)
  unfolding find_from
  find_reaches s k zero j n pos here same e miss =
      let q : j ≡ k = omega arith in
      let q' : 0 + suc n ≡ suc n = omega arith in
      let hit : (strcmp s.text text == 0) ≡ true = ground arith in rw (q, q', find_from, here, hit)
  find_reaches s k (suc d) j n pos here same e miss =
      let q : suc d + suc n ≡ suc (d + suc n) = omega arith in
      let (pos', step) =
        find_past j (d + suc n) pos (get_or mems j none) refl
          (miss j (omega arith) (omega arith)) in
      rw (q, step)
        (find_reaches s k d (j + 1) n pos' here same (omega arith)
          (λ i h h'. miss i (omega arith) (omega arith)))

-- While the table is not full, `shmget` of a name that an entry of the table has answers the id of the
-- first such entry, and changes nothing, unless it is told to overwrite.
pub shmget_existing :
    (k size : ℕ) (text : List ℕ) (s : Shared) (t : Table)
    → t.current < max_blocks
    → k < t.current
    → get_or t.mems k none ≡ some s
    → strcmp s.text text ≡ 0
    → ((i : ℕ) → i < k → Unnamed text (get_or t.mems i none))
    → shmget (some text) size false t ≡ done (k + 1, t)
unfolding shmget place_entry
shmget_existing k size text s t room there here same first =
    let full : (t.current == max_blocks) ≡ false = ground arith in
    let q : t.current ≡ k + suc (t.current - 1 - k) = omega arith in
    let found : find_from 0 t.current t.mems text minus_one ≡ (true, k) =
      ap (λ (n : ℕ). find_from 0 n t.mems text minus_one) q
      ∙ find_reaches text t.mems s k k 0 (t.current - 1 - k) minus_one here same (omega arith)
          (λ i h h'. first i h') in
    let some_place : (k == minus_one) ≡ false = ground arith in
    let id : add64 k 1 ≡ k + 1 = omega arith in rw (full, found, some_place, id)

-- A table that counts `MAX_SHBLOCKS` blocks refuses every name, also one that is there.
pub shmget_full :
    (name : Option (List ℕ)) (size : ℕ) (overwrite : Bool) (t : Table)
    → t.current ≡ max_blocks
    → shmget name size overwrite t ≡ done (minus_one, t)
unfolding shmget
shmget_full name size overwrite t full = rw full
