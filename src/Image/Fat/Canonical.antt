-- ===== src/Image/Fat/Canonical.antt =====
-- crates/xtask/src/image.rs: `validate_canonical_fat_entries` against a plain description of the table.
use polytope_os.Base.{ℕ, zero, suc, ◌+◌, ◌*◌, ◌%◌, ◌^◌, ◌≤◌, ◌<◌, ◌≡◌, ◌⊎◌, refl, arith, inl, inr}
use polytope_os.Base.{bit_and, ◌==◌, List, Option, none, some, ok, Option-cases, Bool-cases, ==_iff}
use polytope_os.Base.{>>=-eq-ok}
use polytope_os.Base.Bits.{bit_and-ones}
use polytope_os.Image.Read.{read_u32}
use polytope_os.Image.Fat.{step_cluster, check_clusters}

-- The 28 bits of a cluster's entry.
pub record HasEntry (fat : List ℕ) (cluster value : ℕ) : Type 0 where
  pub raw : ℕ
  pub present : read_u32 fat (cluster * 4) ≡ some raw
  pub low_bits : value ≡ raw % 2 ^ 28

abbrev pub IsFree : List ℕ → ℕ → Type 0
IsFree fat cluster = HasEntry fat cluster 0

-- An entry with a successor: another cluster, or an end of chain.
pub record IsAllocated (fat : List ℕ) (entry_count cluster : ℕ) : Type 0 where
  pub value : ℕ
  pub entry : HasEntry fat cluster value
  pub successor : (2 ≤ value × (value < entry_count)) ⊎ (0xfff_fff8 ≤ value)

pub low_28 : (raw : ℕ) → bit_and raw 0xfff_ffff ≡ raw % 2 ^ 28
low_28 raw = bit_and-ones 28 raw 0xfff_ffff refl

-- A round before the first free cluster, and one behind it.
step_used :
    (cluster : ℕ) (fat : List ℕ) (entry_count : ℕ) (result : Option ℕ)
    → step_cluster cluster fat entry_count none ≡ ok result
    → ((result ≡ some cluster) × IsFree fat cluster)
      ⊎ ((result ≡ none) × IsAllocated fat entry_count cluster)
unfolding step_cluster
step_used cluster fat entry_count result e = elim (Option-cases (read_u32 fat (cluster * 4))) [
  | inl missing ↦ absurd (ground (arith, missing))
  | inr (raw, present) ↦ elim (Bool-cases (bit_and raw 0xfff_ffff == 0)) [
    | inl free ↦ inl (
      ground (arith, present, free),
      record { raw = raw; present = present; low_bits = ground (arith, low_28 raw, free) },
    )
    | inr used ↦ inr (
      ground (arith, present, used),
      record {
        value = bit_and raw 0xfff_ffff;
        entry = record { raw = raw; present = present; low_bits = low_28 raw };
        successor = ground (arith, present, used);
      },
    )
  ]
]

step_behind :
    (cluster : ℕ) (fat : List ℕ) (entry_count first : ℕ) (result : Option ℕ)
    → step_cluster cluster fat entry_count (some first) ≡ ok result
    → (result ≡ some first) × IsFree fat cluster
unfolding step_cluster
step_behind cluster fat entry_count first result e =
    elim (Option-cases (read_u32 fat (cluster * 4))) [
      | inl missing ↦ absurd (ground (arith, missing))
      | inr (raw, present) ↦ (
        ground (arith, present),
        record { raw = raw; present = present; low_bits = ground (arith, present, low_28 raw) },
      )
    ]

step_cluster-IsFree :
    (cluster : ℕ) (fat : List ℕ) (entry_count : ℕ)
    → IsFree fat cluster
    → step_cluster cluster fat entry_count none ≡ ok (some cluster)
unfolding step_cluster
step_cluster-IsFree cluster fat entry_count h = ground (arith, h.present, low_28 h.raw, h.low_bits)

step_behind-IsFree :
    (cluster : ℕ) (fat : List ℕ) (entry_count first : ℕ)
    → IsFree fat cluster
    → step_cluster cluster fat entry_count (some first) ≡ ok (some first)
unfolding step_cluster
step_behind-IsFree cluster fat entry_count first h =
    ground (arith, h.present, low_28 h.raw, h.low_bits)

step_cluster-IsAllocated :
    (cluster : ℕ) (fat : List ℕ) (entry_count : ℕ)
    → IsAllocated fat entry_count cluster
    → step_cluster cluster fat entry_count none ≡ ok none
unfolding step_cluster
step_cluster-IsAllocated cluster fat entry_count h =
    ground (arith, h.entry.present, low_28 h.entry.raw, h.entry.low_bits, h.successor)

abbrev pub AllFree : List ℕ → ℕ → ℕ → Type 0
AllFree fat from to = (k : ℕ) → from ≤ k → k < to → IsFree fat k

abbrev pub AllAllocated : List ℕ → ℕ → ℕ → ℕ → Type 0
AllAllocated fat entry_count from to = (k : ℕ) → from ≤ k → k < to → IsAllocated fat entry_count k

-- A fact of the first number of a range and of those behind it.
extend_range {ℓ} :
    (P : ℕ → Type ℓ) (from to : ℕ)
    → P from
    → ((k : ℕ) → from + 1 ≤ k → k < to → P k)
    → (k : ℕ) → from ≤ k
    → k < to
    → P k
extend_range P from to now later k lo hi = elim (Bool-cases (k == from)) [
  | inl same ↦ rw ((==_iff k from).0 same) now
  | inr other ↦ later k (ground (arith, other)) hi
]

clusters_behind :
    (rounds cluster : ℕ) (fat : List ℕ) (entry_count first : ℕ) (result : Option ℕ)
    → check_clusters rounds cluster fat entry_count (some first) ≡ ok result
    → (result ≡ some first) × AllFree fat cluster (cluster + rounds)
unfolding check_clusters
clusters_behind zero cluster fat entry_count first result e =
    (ground arith, λ k lo hi. absurd (omega arith))
clusters_behind (suc rounds) cluster fat entry_count first result e =
    let (next, stepped, e1) = >>=-eq-ok (step_cluster cluster fat entry_count (some first)) _ e in
    let (kept, free) = step_behind cluster fat entry_count first next stepped in
    let (same, later) =
      clusters_behind rounds (cluster + 1) fat entry_count first result (rw kept at e1) in
    (
      same,
      extend_range (IsFree fat) cluster (cluster + suc rounds) free
          (λ k lo hi. later k lo (omega arith)),
    )

-- The first free cluster, if the loop finds one.
pub record Splits (fat : List ℕ) (entry_count from to first : ℕ) : Type 0 where
  pub from_le : from ≤ first
  pub lt_to : first < to
  pub allocated : AllAllocated fat entry_count from first
  pub free : AllFree fat first to

pub clusters_split :
    (rounds cluster : ℕ) (fat : List ℕ) (entry_count first : ℕ)
    → check_clusters rounds cluster fat entry_count none ≡ ok (some first)
    → Splits fat entry_count cluster (cluster + rounds) first
unfolding check_clusters
clusters_split zero cluster fat entry_count first e = cc
clusters_split (suc rounds) cluster fat entry_count first e =
    let (next, stepped, e1) = >>=-eq-ok (step_cluster cluster fat entry_count none) _ e in
    elim (step_used cluster fat entry_count next stepped) [
      | inl (now, free) ↦
          let (same, later) =
            clusters_behind rounds (cluster + 1) fat entry_count cluster (some first)
              (rw now at e1) in
          let here : first ≡ cluster = cc in
          rw here (record {
            from_le = omega arith;
            lt_to = omega arith;
            allocated = λ k lo hi. absurd (omega arith);
            free =
                extend_range (IsFree fat) cluster (cluster + suc rounds) free
                  (λ k lo hi. later k lo (omega arith));
          })
      | inr (none_yet, allocated) ↦
          let s = clusters_split rounds (cluster + 1) fat entry_count first (rw none_yet at e1) in
          record {
            from_le = omega arith;
            lt_to = omega arith;
            allocated =
                extend_range (IsAllocated fat entry_count) cluster first allocated s.allocated;
            free = λ k lo hi. s.free k lo (omega arith);
          }
    ]

behind-clusters :
    (rounds cluster : ℕ) (fat : List ℕ) (entry_count first : ℕ)
    → AllFree fat cluster (cluster + rounds)
    → check_clusters rounds cluster fat entry_count (some first) ≡ ok (some first)
unfolding check_clusters
behind-clusters zero cluster fat entry_count first h = refl
behind-clusters (suc rounds) cluster fat entry_count first h =
    rw (step_behind-IsFree cluster fat entry_count first (h cluster (omega arith) (omega arith))) (
      behind-clusters rounds (cluster + 1) fat entry_count first
        (λ k lo hi. h k (omega arith) (omega arith)))

pub split-clusters :
    (rounds cluster : ℕ) (fat : List ℕ) (entry_count first : ℕ)
    → Splits fat entry_count cluster (cluster + rounds) first
    → check_clusters rounds cluster fat entry_count none ≡ ok (some first)
unfolding check_clusters
split-clusters zero cluster fat entry_count first s = absurd (omega arith)
split-clusters (suc rounds) cluster fat entry_count first s = elim (Bool-cases (cluster == first)) [
  | inl here ↦
      let e = (==_iff cluster first).0 here in
      let free = s.free cluster (omega arith) (omega arith) in
      rw (step_cluster-IsFree cluster fat entry_count free, e)
        (behind-clusters rounds (first + 1) fat entry_count first
          (λ k lo hi. s.free k (omega arith) (omega arith)))
  | inr later ↦
      let below : cluster < first = ground (arith, later) in
      rw
        (step_cluster-IsAllocated cluster fat entry_count (s.allocated cluster (omega arith) below))
        (split-clusters rounds (cluster + 1) fat entry_count first (record {
          from_le = omega arith;
          lt_to = omega arith;
          allocated = λ k lo hi. s.allocated k (omega arith) hi;
          free = λ k lo hi. s.free k lo (omega arith);
        }))
]
