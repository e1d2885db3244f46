-- ===== src/Registry/Namespace.antt =====
-- What names a namespace is unambiguous.
use termux_mcp_edge.Base.{
  ℕ, ◌<◌, ◌^◌, ◌≡◌, sym, ◌++◌, length, Bytes, append-injective, to_be_bytes, length-to_be_bytes,
  to_be_bytes-injective, ◌∙◌, refl,
}
use termux_mcp_edge.Registry.{namespace_domain, namespace_message}

-- Capability family, key identifier and principal digest can be read off the HMAC's message: two
-- authorities that differ in one of them never name a namespace by the same message. (A key
-- identifier has fewer than 2 ^ 64 bytes.)
namespace_message-injective :
    (family family' : ℕ) (key_id key_id' principal principal' : Bytes)
    → length key_id < 256 ^ 8
    → length key_id' < 256 ^ 8
    → namespace_message family key_id principal ≡ namespace_message family' key_id' principal'
    → (family ≡ family') × (key_id ≡ key_id') × (principal ≡ principal')
unfolding namespace_message
namespace_message-injective family family' key_id key_id' principal principal' h h' e =
    let tail = (append-injective namespace_domain namespace_domain _ _ refl e).1 in
    let widths : length (to_be_bytes 8 (length key_id)) ≡ length (to_be_bytes 8 (length key_id')) =
      length-to_be_bytes 8 (length key_id) ∙ sym (length-to_be_bytes 8 (length key_id')) in
    let (lengths, rest) =
      append-injective (to_be_bytes 8 (length key_id)) (to_be_bytes 8 (length key_id'))
        (key_id ++ principal) (key_id' ++ principal') widths (cc) in
    let same = to_be_bytes-injective 8 (length key_id) (length key_id') h h' lengths in
    let (keys, principals) = append-injective key_id key_id' principal principal' same rest in
    (cc, keys, principals)
