-- ===== src/Reference/Container/Header.antt =====
-- `Header.to_json_bytes` of krcm/core.py, and that of crates/krcm-core/src/header_v4.rs.
use krcm_spn.Base.{ap, arith, refl, ◌∙◌, ◌≡◌}
use krcm_spn.HeaderV4.{HeaderV4, members, to_json_bytes}
use krcm_spn.HeaderV4.Laws.{IsValidHeader, construction-IsPlain}
use krcm_spn.Json.{Base64, IsPlainObject, print_object}
use krcm_spn.Reference.Container.{Dumps, payload_py, sort_keys, to_json_bytes_py}

payload-sorted :
    (base64 : Base64) (header : HeaderV4)
    → sort_keys (payload_py base64 header) ≡ members base64 header
unfolding payload_py members
payload-sorted base64 header = refl

payload-IsPlainObject :
    (base64 : Base64) (header : HeaderV4)
    → IsValidHeader header
    → IsPlainObject (payload_py base64 header)
unfolding payload_py
payload-IsPlainObject base64 header (v1, v2, i1, i2, hs, hn, fits) =
    let plain_salt = base64.encode-IsPlain header.salt hs.1 in
    let plain_nonce = base64.encode-IsPlain header.nonce hn.1 in
    let plain_name = construction-IsPlain header.version in
    (
      omega arith,
      omega arith,
      refl,
      (
        omega arith,
        omega arith,
        refl,
        (
          omega arith,
          omega arith,
          refl,
          (
            omega arith,
            plain_salt,
            refl,
            (
              omega arith,
              plain_nonce,
              refl,
              (
                omega arith,
                fits,
                refl,
                (
                  omega arith,
                  omega arith,
                  refl,
                  (
                    omega arith,
                    omega arith,
                    refl,
                    (omega arith, omega arith, refl, (omega arith, plain_name, refl, tt)),
                  ),
                ),
              ),
            ),
          ),
        ),
      ),
    )

-- The reference writes a valid header as the crate does.
pub to_json_bytes_py-to_json_bytes :
    (json : Dumps) (base64 : Base64) (header : HeaderV4)
    → IsValidHeader header
    → to_json_bytes_py json base64 header ≡ to_json_bytes base64 header
unfolding to_json_bytes_py to_json_bytes
to_json_bytes_py-to_json_bytes json base64 header h =
    json.dumps_sorted (payload_py base64 header) (payload-IsPlainObject base64 header h)
    ∙ ap print_object (payload-sorted base64 header)
