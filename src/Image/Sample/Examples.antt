-- ===== src/Image/Sample/Examples.antt =====
-- The theorems on images at the sample image, which is built and accepted. The functions for the crates
-- return the pieces of the sample.
use polytope_os.Base.{
  ℕ, zero, suc, ◌≤◌, replicate, ◌≡◌, ◌↔◌, refl, arith, List, [], ◌∷◌, length, take, list_eq,
  if◌then◌else◌, true, Option, none, some, ok,
}
use polytope_os.Base.Chunks.{Reads, read_loop, read_round, after_chunk}
use polytope_os.Base.Bytes.{to_le}
use polytope_os.Harness.Text.{codes}
use polytope_os.Elf.Examples as Kernel
use polytope_os.Image.Gpt.{validate_raw_gpt_layout}
use polytope_os.Image.Gpt.Spec.{IsGptLayout}
use polytope_os.Image.Gpt.Correct.{raw_gpt_layout_iff}
use polytope_os.Image.Fat.{validate_raw_fat32_layout}
use polytope_os.Image.Fat.Layout.{IsFatVolume, raw_fat32_layout_iff}
use polytope_os.Image.Scenario
use polytope_os.Image.Scenario.Tokens.{scenario_file}
use polytope_os.Image.Files.{read_fat_file, take_chunk}
use polytope_os.Image.Examples.{
  loader_bytes, loader_accepted, volume, volume_accepted, enough_memory,
}
use polytope_os.Image.Build.{
  Partition, GptDisk, Volume, Crates, ImageManifest, partition_at, read_path, validate_tree,
  validate_image_bytes, build_image_bytes,
}
use polytope_os.Image.Build.Tree.{validate_tree_iff}
use polytope_os.Image.Build.Correct.{HasFiles, IsImage, esp_of, validated_manifest_iff}
use polytope_os.Image.Build.Built.{IsBuilt, build_image_iff}
use polytope_os.Image.Sample.{partition, image}
use polytope_os.Image.Sample.Partition.{partition-IsFatVolume, length-partition, partition_label}
use polytope_os.Image.Sample.Disk.{image-IsGptLayout, length-image, esp_of-image, image_joined}

raw_gpt_layout_iff_example : (validate_raw_gpt_layout image ≡ ok tt) ↔ IsGptLayout image
raw_gpt_layout_iff_example = raw_gpt_layout_iff image length-image

gpt_accepted : validate_raw_gpt_layout image ≡ ok tt
gpt_accepted = (raw_gpt_layout_iff image length-image).1 image-IsGptLayout

raw_fat32_layout_iff_example : (validate_raw_fat32_layout partition ≡ ok tt) ↔ IsFatVolume partition
raw_fat32_layout_iff_example = raw_fat32_layout_iff partition length-partition

fat32_accepted : validate_raw_fat32_layout partition ≡ ok tt
fat32_accepted = (raw_fat32_layout_iff partition length-partition).1 partition-IsFatVolume

abbrev once : List ℕ → Reads
once bytes zero = some bytes
once bytes (suc at) = some []

abbrev files : List ℕ → Option Reads
files path =
    if list_eq path (codes "EFI/BOOT/BOOTX64.EFI")
    then some (once loader_bytes)
    else if list_eq path (codes "POLYTOPE/KERNEL.ELF")
    then some (once Kernel.image)
    else if list_eq path (codes "POLYTOPE/BOOT.CFG")
    then some (once (codes "normal\n"))
    else none

abbrev mounted : Volume
mounted = record (volume true) { file = files }

abbrev esp : Partition
esp = record {
  part_type_guid = codes "ESP";
  part_guid = codes "f607134d-0901-4d7b-a512-5a49d6ba66bf";
  first_lba = 2_048;
  last_lba = 129_023;
  flags = 0;
  name = codes "PolytopeOS ESP";
}

abbrev gpt : GptDisk
gpt = record { guid = codes "4ed83d8f-20d8-4c3d-9a4c-25bccd13a6a1"; partitions = (1, esp) ∷ [] }

abbrev crates : Crates
crates = record {
  sha256_hex = λ bytes. take 64 bytes;
  parse_uuid = λ text. some text;
  uuid_text = λ uuid. uuid;
  efi_type = codes "ESP";
  open_gpt = λ disk. some gpt;
  open_fat = λ bytes. some mounted;
  overwrite_mbr = λ blocks bytes. some bytes;
  write_gpt = λ bytes guid partitions. some image;
  format_volume = λ bytes. some bytes;
  write_tree = λ bytes directories contents. some partition;
  reserve = enough_memory;
}

abbrev manifest : ImageManifest
manifest = record {
  schema_version = 1;
  image_bytes = 67_108_864;
  image_sha256 = take 64 image;
  loader_sha256 = take 64 loader_bytes;
  kernel_sha256 = take 64 Kernel.image;
  scenario = Scenario.normal;
  esp_first_lba = 2_048;
  esp_last_lba = 129_023;
  disk_guid = codes "4ed83d8f-20d8-4c3d-9a4c-25bccd13a6a1";
  esp_guid = codes "f607134d-0901-4d7b-a512-5a49d6ba66bf";
}

mounted_tree : validate_tree mounted ≡ ok tt
mounted_tree = unfold validate_tree in volume_accepted

loader_read : read_path crates mounted (codes "EFI/BOOT/BOOTX64.EFI") 25_165_824 ≡ ok loader_bytes
unfolding read_path read_fat_file read_loop read_round after_chunk take_chunk list_eq to_le
    replicate
loader_read = refl

kernel_read : read_path crates mounted (codes "POLYTOPE/KERNEL.ELF") 16_777_216 ≡ ok Kernel.image
unfolding read_path read_fat_file read_loop read_round after_chunk take_chunk list_eq
kernel_read = refl

scenario_read :
    read_path crates mounted (codes "POLYTOPE/BOOT.CFG") 32 ≡ ok (scenario_file Scenario.normal)
unfolding read_path read_fat_file read_loop read_round after_chunk take_chunk list_eq
    Scenario.as_str
scenario_read = refl

mounted-HasFiles : HasFiles crates mounted loader_bytes Kernel.image Scenario.normal
mounted-HasFiles = record {
  tree = (validate_tree_iff mounted).0 mounted_tree;
  loader_read = loader_read;
  kernel_read = kernel_read;
  scenario_read = scenario_read;
  loader_valid = loader_accepted;
  kernel_elf = Kernel.parsed;
  kernel_valid = Kernel.image-parse;
}

image-IsImage : IsImage crates image manifest
unfolding partition_at
image-IsImage = record {
  size = length-image;
  layout = image-IsGptLayout;
  disk_guid = gpt.guid;
  esp_guid = esp.part_guid;
  disk_uuid = refl;
  esp_uuid = refl;
  has_esp = record {
    gpt_disk = gpt;
    opened = refl;
    same_disk = refl;
    one_partition = refl;
    partition = esp;
    first = refl;
    is_esp = refl;
    same_esp = refl;
    first_lba = refl;
    last_lba = refl;
  };
  fat32 = rw esp_of-image partition-IsFatVolume;
  volume = mounted;
  mounted = record {
    raw_label = rw esp_of-image partition_label;
    opened = refl;
    is_fat32 = refl;
    volume_id = refl;
    volume_label = refl;
  };
  loader = loader_bytes;
  kernel = Kernel.image;
  scenario = Scenario.normal;
  files = mounted-HasFiles;
  manifest = refl;
}

image_accepted : validate_image_bytes crates image ≡ ok manifest
image_accepted = (validated_manifest_iff crates image manifest).1 image-IsImage

validated_manifest_iff_example :
    (validate_image_bytes crates image ≡ ok manifest) ↔ IsImage crates image manifest
validated_manifest_iff_example = validated_manifest_iff crates image manifest

short_loader : length loader_bytes ≤ 25_165_824
unfolding to_le replicate
short_loader = omega arith

image-IsBuilt : IsBuilt crates loader_bytes Kernel.image Scenario.normal image manifest
image-IsBuilt = record {
  loader_valid = loader_accepted;
  kernel_elf = Kernel.parsed;
  kernel_valid = Kernel.image-parse;
  loader_size = short_loader;
  kernel_size = omega arith;
  table = image;
  blank = record {
    device = replicate 67_108_864 0;
    disk_guid = gpt.guid;
    esp_guid = esp.part_guid;
    protected = refl;
    disk_uuid = refl;
    esp_uuid = refl;
    written = refl;
  };
  formatted = record {
    size = omega (arith, length-image);
    volume = esp_of image;
    esp = partition;
    formatted = refl;
    files = refl;
    joined = image_joined;
  };
  is_image = image-IsImage;
  loader_digest = refl;
  kernel_digest = refl;
  same_scenario = refl;
}

image_built :
    build_image_bytes crates loader_bytes Kernel.image Scenario.normal ≡ ok (image, manifest)
image_built =
    (build_image_iff crates loader_bytes Kernel.image Scenario.normal image manifest).1
      image-IsBuilt

build_image_iff_example :
    (build_image_bytes crates loader_bytes Kernel.image Scenario.normal ≡ ok (image, manifest))
    ↔ IsBuilt crates loader_bytes Kernel.image Scenario.normal image manifest
build_image_iff_example =
    build_image_iff crates loader_bytes Kernel.image Scenario.normal image manifest
