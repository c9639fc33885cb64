-- ===== src/Lib.antt =====
-- KRCM-SPN: a password-based file encryption with a block cipher of its own, in
-- crates/krcm-core. A payload is put into an inner plaintext with a header, a digest and random
-- padding; this is cut into segments, each of which is padded and encrypted block by block under a
-- nonce of its own; a table lists the segments; and a container holds a public header, a synthetic
-- IV, the table, the ciphertext and a tag over all of them. Decryption reads these fields back,
-- compares the tag, decrypts, and compares the synthetic IV and the digest. That is version 5; version
-- 4 has a JSON header, the ciphertext of the padded payload and a tag. lib.rs finds the version of a
-- container. The command line, crates/krcm-cli, encrypts, decrypts and migrates files, each output
-- written beside its place and then moved to it; crates/krcm-py offers the calls to Python.
-- krcm/core.py is the reference of version 4 in Python, which falls back to itself where the crate's
-- binding is not there, so that the two have to agree.
--
-- The files and the code they model (paths under crates/krcm-core/src, where they name no crate):
--   Base, Base/*        helpers: Boolean tests, lists over the native numbers, arrays, byte strings
--                       and big-endian fields, cursors in a byte string (Base/Reading), decimal
--                       numbers, loops, congruences, and the outcome of a call (Base/Results: a value, an error of
--                       error.rs, a panic, or out of fuel; Base/Settles: neither of the last two)
--   Constants           constants.rs, and the constants of format_v5.rs
--   Primitives          the functions of other crates, as a record that the definitions take
--   Padding             padding.rs
--   Matrix              block.rs: wrapping words, modinv_odd_u64, matrix_inv, matrix_mul
--   Permutation         block.rs: inverse_permutation and the two moves of a block
--   Sampler             block.rs: hkdf_expand_like, take_u64, the shuffles, matrix_from_seed
--   Block               block.rs: the rounds, encrypt_one_block, encrypt_blocks and their inverses
--   Kdf                 kdf.rs
--   HeaderV5            format_v5.rs: pack_public_header, parse_public_header
--   InnerV5             format_v5.rs: pack_inner, inspect_inner, unpack_inner
--   Segment             format_v5.rs: the segment table (Segment), encrypt_segments and
--                       decrypt_segments (Segment/Cipher)
--   ContainerV5         format_v5.rs: encrypt_v5, decrypt_v5, cut into read_parts and open_parts
--   Json                what serde_json and base64 are asked for, as records
--   HeaderV4            header_v4.rs
--   ContainerV4         format_v4.rs: encrypt_v4, decrypt_v4, cut into read_v4 and open_v4
--   Auto                lib.rs: encrypt_auto, decrypt_auto
--   Cli/Size            crates/krcm-cli/src/main.rs: parse_size
--   Cli/Files           main.rs: the operations on files that it uses, as a record with laws;
--                       ensure_output_available and atomic_write (Cli/Files/Write)
--   Cli/Options         main.rs: the commands and their arguments, make_kdf, make_padding
--   Cli/Run             main.rs: read_password and run, one function for each command
--   Cli/Main            main.rs: main, its exit code and what it prints on an error
--   Vector              crates/krcm-core/examples/generate_v5_vector.rs
--   Fuzz                fuzz/fuzz_targets, and the functions of format_v5.rs for them
--   Python              crates/krcm-py/src/lib.rs, with the texts of error.rs
--   Reference           krcm/core.py: exceptions as values, and when a call of the crate and one of
--                       the reference agree (Reference/Agree)
--   Reference/Int       Python's integers below zero
--   Reference/Words     core.py: extended_gcd, modinv and the matrices
--   Reference/Sample    core.py: _hkdf_expand_like, the shuffles, _matrix_from_seed
--   Reference/Cipher    core.py: the rounds of versions 2 and 4
--   Reference/Affine    core.py: the rounds of version 3
--   Reference/Blocks    core.py: _encrypt_blocks and _decrypt_blocks
--   Reference/Container core.py: derive_keys, _pad, _unpad, to_json_bytes, encrypt_bytes; and in
--                       Read from_json_bytes and decrypt_bytes
--   Examples            concrete primitives, files in memory, a parser of flat JSON objects, and runs
--                       of the theorems on concrete inputs
--
-- Numbers are natural numbers with the wrap of the machine type written out. A sum of lengths on
-- usize or u64 that the code writes with `+` takes a flag, `checks`: an overflow panics where
-- overflow checks are compiled in and wraps where they are not. usize has 64 bits.
--
-- An index or a slice of a container, a header, a table or an inner plaintext is a read that panics
-- out of range (index, slice in Base/Results); operands of `||` that read are guards one after the
-- other. The modules named Total hold the same functions with reads that cannot panic, and that the
-- two are equal, since the length is compared before. Arrays whose size is in their Rust type, and the
-- blocks and streams that block.rs itself makes, are read with a default out of range.
--
-- Loops of the source are structural or run a fixed number of rounds. The rejection sampling of the
-- shuffles has no bound in the source: it runs on `fuel` and is out of fuel (diverged) when the fuel
-- ends. Theorems that say that a call returns ask that any `fuel` words in a row of every stream
-- hold one below 2 ^ 64 - 256 (Accepting, Sampler/Draws), which is below every limit in use. The
-- expansion loop has fuel for one round a byte, and a round adds 32 bytes.
--
-- HMAC, SHA-256, PBKDF2, scrypt, the constant-time comparison, the parallel map and the random
-- generator are parameters, with the sizes of their outputs, what the comparison compares, and that
-- the parallel map is the sequential one where this succeeds. The parallel map's choice among
-- several errors is not fixed.
--
-- serde_json is asked for the members of an object of plain texts and numbers printed without blanks,
-- and for numbers below 2 ^ 64; base64 for texts without quotation marks or escapes that decode to what
-- was encoded and are at most twice as long and 4 characters more.
--
-- The reference differs from the crate where a number does not fit the bytes it is written to: Python
-- raises an exception and Rust cuts the number. Only the length of a sampler's stream can grow so far,
-- after 2 ^ 32 bytes; theorems on both take at most 2 ^ 20 draws in a rejection loop, so that no
-- stream gets there. json.dumps is asked for the members sorted by key without blanks, json.loads for
-- the members of such an object, and pow(a, -1, 256) for an inverse of an odd number.
--
-- The command line runs on a state of the files, which every operation takes and returns; each may
-- fail. The laws (IsLawful, Cli/Files) say what the operations do to the content at each path, that
-- two paths are two files, and that a name joined to a directory is the name of the file: links and
-- other programs that write at the same time are outside them. The loop that looks for a free name
-- runs on `tries`; it is out of fuel when every try meets a file. The answers at the prompts and the
-- random numbers of the names are functions of the number of the call. A password is the
-- list of its bytes, and the text of a size the list of its characters' codes.
--
-- Not modelled: the parsing of arguments by clap, printing and timing in the command line, the
-- registration of the Python module, the type checks and the text and file helpers of krcm/core.py
-- and the other files of krcm, clearing keys on drop, and allocation failure.
pub mod Base
pub mod Constants
pub mod Padding
pub mod Matrix
pub mod Primitives
pub mod Permutation
pub mod Sampler
pub mod Block
pub mod Kdf
pub mod Segment
pub mod HeaderV5
pub mod InnerV5
pub mod ContainerV5
pub mod Json
pub mod HeaderV4
pub mod ContainerV4
pub mod Auto
pub mod Cli
pub mod Python
pub mod Fuzz
pub mod Vector
pub mod Reference
pub mod Examples
