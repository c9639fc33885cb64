-- ===== src/Constants.antt =====
-- crates/krcm-core/src/constants.rs and the constants of format_v5.rs.
use krcm_spn.Base.{ℕ, ◌+◌, ◌∷◌, ◌++◌, [], Bytes, codes}

abbrev pub block_bytes : ℕ
block_bytes = 32

abbrev pub tag_bytes : ℕ
tag_bytes = 32

abbrev pub salt_bytes : ℕ
salt_bytes = 16

abbrev pub nonce_bytes : ℕ
nonce_bytes = 16

abbrev pub rounds : ℕ
rounds = 10

abbrev pub max_pbkdf2_iterations : ℕ
max_pbkdf2_iterations = 1_000_000

abbrev pub max_header_bytes : ℕ
max_header_bytes = 4096

abbrev pub magic_v4 : Bytes
magic_v4 = codes "AMPCRYPT"

abbrev pub magic_v5 : Bytes
magic_v5 = codes "KRCMSPN" ++ 0 ∷ []

abbrev pub version_v4 : ℕ
version_v4 = 4

abbrev pub header_v5_size : ℕ
header_v5_size = 64

abbrev pub inner_magic : Bytes
inner_magic = codes "KRCMIN5" ++ 0 ∷ []

abbrev pub tag_domain : Bytes
tag_domain = codes "KRCM-v5-TAG"

abbrev pub outer_prefix_bytes : ℕ
outer_prefix_bytes = 8 + 1 + 4

abbrev pub synthetic_iv_bytes : ℕ
synthetic_iv_bytes = 32

abbrev pub segment_entry_bytes : ℕ
segment_entry_bytes = 40

abbrev pub inner_header_bytes : ℕ
inner_header_bytes = 76

abbrev pub default_iterations : ℕ
default_iterations = 200_000
