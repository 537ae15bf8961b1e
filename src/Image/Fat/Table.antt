-- ===== src/Image/Fat/Table.antt =====
-- crates/xtask/src/image.rs: `validate_canonical_fat_entries` as a whole.
use polytope_os.Base.{ℕ, ◌+◌, ◌-◌, ◌*◌, ◌%◌, ◌^◌, ◌≤◌, ◌<◌, ◌≡◌, ◌↔◌, refl, arith, inl, inr}
use polytope_os.Base.{
  bit_and, leb, List, [], ◌∷◌, length, drop, slice, none, some, ok, Option-cases, true, false,
  list_eq,
}
use polytope_os.Base.{>>=-eq-ok, ok_or, or_panic, slice_suffix, match_option}
use polytope_os.Base.Bits.{bit_and-ones}
use polytope_os.Elf.Read.{checked_mul}
use polytope_os.Image.Types.{ImageError, ensure}
use polytope_os.Image.Types
use polytope_os.Image.Read.{read_u32}
use polytope_os.Image.Fat.{
  check_table, are_reserved, check_clusters, are_sentinels, validate_canonical_fat_entries,
}
use polytope_os.Image.Fat.Canonical.{Splits, clusters_split, split-clusters, low_28}

abbrev pub AreSentinels : List ℕ → Type 0
AreSentinels (a ∷ b ∷ c ∷ d ∷ bytes) =
    (a ≡ 0xff) × (b ≡ 0xff) × (c ≡ 0xff) × (d ≡ 0x0f) × AreSentinels bytes
AreSentinels _ = Unit {0}

are_sentinels_iff : (bytes : List ℕ) → (are_sentinels bytes ≡ true) ↔ AreSentinels bytes
unfolding are_sentinels list_eq
are_sentinels_iff [] = (λ e. tt, λ h. refl)
are_sentinels_iff (a ∷ []) = (λ e. tt, λ h. refl)
are_sentinels_iff (a ∷ b ∷ []) = (λ e. tt, λ h. refl)
are_sentinels_iff (a ∷ b ∷ c ∷ []) = (λ e. tt, λ h. refl)
are_sentinels_iff (a ∷ b ∷ c ∷ d ∷ bytes) = ground (arith, are_sentinels_iff bytes)

-- The two reserved entries: the media byte, and a mark of end of chain.
pub record HasReserved (fat : List ℕ) : Type 0 where
  pub media : ℕ
  pub media_entry : read_u32 fat 0 ≡ some media
  pub media_byte : media % 2 ^ 8 ≡ 0xf8
  pub mark : ℕ
  pub mark_entry : read_u32 fat 4 ≡ some mark
  pub mark_value : 0xfff_fff8 ≤ mark % 2 ^ 28

-- A canonical table of `n` entries: the two reserved ones come first; the clusters that are allocated
-- come before those that are free; the FSInfo sector names the first free one; and what is behind the
-- last entry is end-of-chain marks.
pub record IsCanonical (n : ℕ) (fat fs_info : List ℕ) : Type 0 where
  pub fits : n * 4 ≤ length fat
  pub reserved : HasReserved fat
  pub first_free : ℕ
  pub splits : Splits fat n 2 n first_free
  pub in_range : first_free < 2 ^ 32
  pub hint : read_u32 fs_info 492 ≡ some first_free
  pub sentinels : AreSentinels (drop (n * 4) fat)

low_8 : (raw : ℕ) → bit_and raw 0xff ≡ raw % 2 ^ 8
low_8 raw = bit_and-ones 8 raw 0xff refl

-- The loop from the first data cluster.
first_free_iff :
    (n first : ℕ) (fat : List ℕ)
    → 2 ≤ n
    → (check_clusters (n - 2) 2 fat n none ≡ ok (some first)) ↔ Splits fat n 2 n first
first_free_iff n first fat h =
    let same : 2 + (n - 2) ≡ n = omega arith in
    (
      λ e. rw same at (clusters_split (n - 2) 2 fat n first e),
      λ s. split-clusters (n - 2) 2 fat n first (rw same s),
    )

are_reserved-HasReserved : (fat : List ℕ) → are_reserved fat ≡ true → HasReserved fat
unfolding are_reserved
are_reserved-HasReserved fat e = elim (Option-cases (read_u32 fat 0)) [
  | inl missing ↦ absurd (ground (arith, missing))
  | inr (media, media_entry) ↦ elim (Option-cases (read_u32 fat 4)) [
    | inl missing ↦ absurd (ground (arith, missing, media_entry))
    | inr (mark, mark_entry) ↦ record {
      media = media;
      media_entry = media_entry;
      media_byte = ground (arith, media_entry, mark_entry, low_8 media);
      mark = mark;
      mark_entry = mark_entry;
      mark_value = ground (arith, media_entry, mark_entry, low_28 mark);
    }
  ]
]

HasReserved-are_reserved : (fat : List ℕ) → HasReserved fat → are_reserved fat ≡ true
unfolding are_reserved
HasReserved-are_reserved fat h =
    ground
      (arith, h.media_entry, h.mark_entry, h.media_byte, h.mark_value, low_8 h.media, low_28 h.mark)

module _ (n : ℕ) (fat fs_info : List ℕ) (at_least : 2 ≤ n) (at_most : n ≤ 2 ^ 33) where
  accepted-IsCanonical : check_table n fat fs_info ≡ ok tt → IsCanonical n fat fs_info
  unfolding check_table
  accepted-IsCanonical e =
      let (u0, fits, e1) =
        >>=-eq-ok
          (ensure (match_option false (λ bytes. leb bytes (length fat)) (checked_mul n 4))
            Types.fat_too_short)
          _ e in
      let long : n * 4 ≤ length fat = ground arith in
      let (u1, reserved, e2) =
        >>=-eq-ok (ensure (are_reserved fat) Types.fat_reserved_entries) _ e1 in
      let (first_free, looped, e3) = >>=-eq-ok (check_clusters (n - 2) 2 fat n none) _ e2 in
      let (tail, tail_cut, e4) = >>=-eq-ok (or_panic (slice fat (n * 4) (length fat))) _ e3 in
      let is_tail : tail ≡ drop (n * 4) fat = ground (arith, slice_suffix fat (n * 4) long) in
      let (u2, sentinels, e5) = >>=-eq-ok (ensure (are_sentinels tail) Types.fat_sentinels) _ e4 in
      let (first, found, e6) = >>=-eq-ok (ok_or first_free Types.fat_full) _ e5 in
      let is_first : first_free ≡ some first = ground arith in
      record {
        fits = long;
        reserved = are_reserved-HasReserved fat (ground arith);
        first_free = first;
        splits = (first_free_iff n first fat at_least).0 (rw is_first at looped);
        in_range = ground arith;
        hint = ground arith;
        sentinels = rw (← is_tail) ((are_sentinels_iff tail).0 (ground arith));
      }

  IsCanonical-accepted : IsCanonical n fat fs_info → check_table n fat fs_info ≡ ok tt
  unfolding check_table
  IsCanonical-accepted h =
      let fits : match_option false (λ bytes. leb bytes (length fat)) (checked_mul n 4) ≡ true =
        ground (arith, h.fits) in
      rw
        (
          fits,
          HasReserved-are_reserved fat h.reserved,
          (first_free_iff n h.first_free fat at_least).1 h.splits,
          slice_suffix fat (n * 4) h.fits,
          (are_sentinels_iff (drop (n * 4) fat)).1 h.sentinels,
        )
        (ground (arith, h.in_range, h.hint))

-- For a partition of fewer than 2 ^ 32 sectors, `validate_canonical_fat_entries` accepts a file
-- allocation table and an FSInfo sector just where the data region starts within the partition and the
-- table is canonical for its clusters: each has an entry; the allocated clusters, each with another
-- cluster or an end of chain behind it, come before the free ones, of which there is one at least; the
-- FSInfo sector names the first of those; the reserved entries hold the media byte and a mark; and all
-- behind the last entry is end-of-chain marks.
pub fat_entries_iff :
    (fat fs_info : List ℕ) (total_sectors data_lba : ℕ)
    → total_sectors < 2 ^ 32
    → (validate_canonical_fat_entries fat total_sectors data_lba fs_info ≡ ok tt)
      ↔ (data_lba ≤ total_sectors) × IsCanonical (total_sectors - data_lba + 2) fat fs_info
unfolding validate_canonical_fat_entries
fat_entries_iff fat fs_info total_sectors data_lba small =
    let n = total_sectors - data_lba + 2 in
    ground (
      arith,
      accepted-IsCanonical n fat fs_info (omega arith) (omega arith),
      IsCanonical-accepted n fat fs_info (omega arith) (omega arith),
    )
