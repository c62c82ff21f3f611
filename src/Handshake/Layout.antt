-- ===== src/Handshake/Layout.antt =====
-- The payload of a HELLO, client/src/clients/client.cpp and client/src/server/server.cpp.
use folder_buddies.Base.{
  Option, some, [], ◌++◌, length, ◌≡◌, sym, ◌∙◌, ap, arith, append-nil, append_assoc, take_all,
  length-append,
}
use folder_buddies.Base.Bytes.{Bytes, le_bytes, length-le_bytes}
use folder_buddies.Wire.{protocol_version, put_raw, put_pod}
use folder_buddies.Wire.RoundTrip.{field, field_raw}
use folder_buddies.Handshake.{Hello, hello_payload, get_hello}

abbrev pub hello_of : Bytes → Bytes → Bytes → Hello
hello_of client_id folder_hash nonce = record {
  version = protocol_version;
  client_id = client_id;
  folder_hash = folder_hash;
  nonce = nonce;
}

-- The fields of the protocol that have a fixed size.
pub record Sized (client_id folder_hash nonce : Bytes) : Type 0 where
  pub id : length client_id ≡ 16
  pub hash : length folder_hash ≡ 32
  pub random : length nonce ≡ 16

module _ (client_id folder_hash nonce : Bytes) (sized : Sized client_id folder_hash nonce) where
  hello_layout :
      hello_payload client_id folder_hash nonce
      ≡ le_bytes 4 protocol_version ++ (client_id ++ (folder_hash ++ nonce))
  unfolding hello_payload put_raw put_pod
  hello_layout =
      rw
        (
          take_all 16 client_id (omega (arith, sized.id)),
          take_all 32 folder_hash (omega (arith, sized.hash)),
          take_all 16 nonce (omega (arith, sized.random)),
        )
        (append_assoc (le_bytes 4 protocol_version ++ client_id) folder_hash nonce
          ∙ append_assoc (le_bytes 4 protocol_version) client_id (folder_hash ++ nonce))

  pub length-hello_payload : length (hello_payload client_id folder_hash nonce) ≡ 68
  length-hello_payload = rw hello_layout (
      omega (
        arith,
        length-append (le_bytes 4 protocol_version) (client_id ++ (folder_hash ++ nonce)),
        length-append client_id (folder_hash ++ nonce),
        length-append folder_hash nonce,
        length-le_bytes 4 protocol_version,
        sized.id,
        sized.hash,
        sized.random,
      ))

  pub get_hello-hello_payload :
      (get_hello (hello_payload client_id folder_hash nonce)).0
      ≡ some (hello_of client_id folder_hash nonce)
  unfolding get_hello
  get_hello-hello_payload =
      let layout =
        hello_layout
        ∙ ap (λ (t : Bytes). le_bytes 4 protocol_version ++ (client_id ++ (folder_hash ++ t)))
            (sym (append-nil nonce)) in
      rw layout (
        ap (λ (r : Option Hello × Bytes). r.0)
          (field 4 protocol_version _ _ (omega arith)
            ∙ field_raw 16 client_id _ _ sized.id
            ∙ field_raw 32 folder_hash _ _ sized.hash
            ∙ field_raw 16 nonce _ [] sized.random))
