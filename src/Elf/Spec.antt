-- ===== src/Elf/Spec.antt =====
-- What a loadable kernel image is, in plain arithmetic and with no reference to the checks.
use polytope_os.Base.{
  ℕ, ◌+◌, ◌*◌, ◌/◌, ◌%◌, ◌^◌, ◌≤◌, ◌<◌, ◌≡◌, ◌⊎◌, List, [], ◌∷◌, All, take, drop, length,
}
use polytope_os.Elf.Types.{LoadSegment}

abbrev pub segment_end : LoadSegment → ℕ
segment_end s = s.physical_address + s.memory_size

-- The least multiple of the page size that is not below `n`.
abbrev pub page_up : ℕ → ℕ
page_up n = (n + 4095) / 4096 * 4096

pub record IsLoadable (bytes : List ℕ) (s : LoadSegment) : Type 0 where
  -- readable, and not both writable and executable
  pub permissions : (s.flags ≡ 4) ⊎ (s.flags ≡ 5) ⊎ (s.flags ≡ 6)
  pub nonempty : 0 < s.memory_size
  pub file_le_memory : s.file_size ≤ s.memory_size
  pub in_file : s.file_offset + s.file_size ≤ length bytes
  pub file_data : s.file_data ≡ take s.file_size (drop s.file_offset bytes)
  pub identity_mapped : s.virtual_address ≡ s.physical_address
  pub alignment : (k : ℕ) × (s.alignment ≡ 2 ^ k)
  pub alignment_lo : 4096 ≤ s.alignment
  pub alignment_hi : s.alignment ≤ 2_097_152
  pub page_aligned : s.physical_address % 4096 ≡ 0
  pub congruent : s.physical_address % s.alignment ≡ s.file_offset % s.alignment
  pub window_lo : 0x20_0000 ≤ s.physical_address
  pub window_hi : segment_end s ≤ 0x4000_0000

-- The pages of every segment end before every later segment starts.
abbrev pub AreDisjoint : List LoadSegment → Type 0
AreDisjoint [] = Unit
AreDisjoint (s ∷ ss) = All (λ t. page_up (segment_end s) ≤ t.physical_address) ss × AreDisjoint ss

abbrev pub total_size : List LoadSegment → ℕ
total_size [] = 0
total_size (s ∷ ss) = s.memory_size + total_size ss

-- The entry point lies in a segment that may be executed and read, and not written.
abbrev pub HoldsEntry : ℕ → List LoadSegment → Type 0
HoldsEntry entry [] = ⊥
HoldsEntry entry (s ∷ ss) =
    (s.flags ≡ 5) × (s.physical_address ≤ entry) × (entry < segment_end s) ⊎ HoldsEntry entry ss

-- A load plan for the image `bytes`.
pub record IsPlan (bytes : List ℕ) (entry : ℕ) (plan : List LoadSegment) : Type 0 where
  pub loadable : All (IsLoadable bytes) plan
  pub disjoint : AreDisjoint plan
  pub count_lo : 1 ≤ length plan
  pub count_hi : length plan ≤ 4
  pub budget : total_size plan ≤ 67_108_864
  pub holds_entry : HoldsEntry entry plan
