-- ===== src/Signaling/Payload/RoundTrip.antt =====
-- A serialised token is read back.
use folder_buddies.Wire.RoundTrip.{
  field_bytes, field_str, field, get_pod-append, field_raw, put_str_lem, put_bytes_lem,
}
use folder_buddies.Base.Bytes.{All-le_bytes, IsByte, bytes_eq_refl, Bytes, le_bytes}
use folder_buddies.Signaling.{Token}
use folder_buddies.Wire.{◌>>=◌, Parse, put_pod, put_raw}
use folder_buddies.Base.{
  is_empty, All-append, All, ◌==◌, ◌&&◌, not, pos→not-==-zero, inr, arith, inl, ◌∙◌, Bool-cases,
  append-nil, Option, true, append_assoc, ap, some, [], Bool, ◌^◌, ◌<◌, ◌++◌, length, false, ◌≡◌,
  if◌then◌else◌, ℕ, refl,
}
use folder_buddies.Signaling.Payload.{
  guard, get_writes, get_token, deserialize_token_payload, payload_magic, serialize_token_payload,
}

-- A token that can be read back: what `deserialize_token_payload` asks of it, within the widths.
pub record UsableToken (tok : Token) : Type 0 where
  pub ip : is_empty tok.ip ≡ false
  pub ip_size : length tok.ip < 2 ^ 32
  pub port : 0 < tok.port
  pub port_size : tok.port < 2 ^ 16
  pub folder_size : length tok.folder < 2 ^ 32
  pub secret : is_empty tok.secret ≡ false
  pub secret_size : length tok.secret < 2 ^ 32

abbrev writes_byte : Token → ℕ
writes_byte tok = if tok.allow_writes then 1 else 0

serialized :
    (tok : Token)
    → UsableToken tok
    → serialize_token_payload tok
      ≡ payload_magic
        ++ (le_bytes 4 2
            ++ (le_bytes 4 (length tok.ip)
                ++ (tok.ip
                    ++ (le_bytes 2 tok.port
                        ++ (le_bytes 4 (length tok.folder)
                            ++ (tok.folder
                                ++ (le_bytes 1 (writes_byte tok)
                                    ++ (le_bytes 4 (length tok.secret) ++ (tok.secret ++ [])))))))))
unfolding serialize_token_payload put_raw put_pod
serialized tok u =
    rw (put_bytes_lem, put_str_lem tok.folder _ u.folder_size, put_str_lem tok.ip _ u.ip_size)
      (simp (append_assoc, append-nil))

-- The texts of a token as bytes.
pub record OctetToken (tok : Token) : Type 0 where
  pub ip : All IsByte tok.ip
  pub folder : All IsByte tok.folder
  pub secret : All IsByte tok.secret

All-number : (n v : ℕ) (rest : Bytes) → All IsByte rest → All IsByte (le_bytes n v ++ rest)
All-number n v rest h = All-append IsByte (le_bytes n v) rest (All-le_bytes n v) h

pub All-payload_magic : All IsByte payload_magic
All-payload_magic = (omega arith, (omega arith, (omega arith, (omega arith, (omega arith, tt)))))

pub All-serialize_token_payload :
    (tok : Token) → UsableToken tok → OctetToken tok → All IsByte (serialize_token_payload tok)
All-serialize_token_payload tok u o = rw (serialized tok u) (
    All-append IsByte payload_magic _ All-payload_magic (
      All-number 4 2 _ (
        All-number 4 (length tok.ip) _ (
          All-append IsByte tok.ip _ o.ip (
            All-number 2 tok.port _ (
              All-number 4 (length tok.folder) _ (
                All-append IsByte tok.folder _ o.folder (
                  All-number 1 (writes_byte tok) _ (
                    All-number 4 (length tok.secret) _
                      (All-append IsByte tok.secret [] o.secret tt))))))))))

field_guard {ℓ} :
    {A : Type ℓ} (b : Bool) (f : Unit {0} → Parse A) (rest : Bytes)
    → b ≡ true
    → (guard b >>= f) rest ≡ f tt rest
field_guard b f rest h = rw h refl

field_writes {ℓ} :
    {A : Type ℓ} (tok : Token) (f : Bool → Parse A) (rest : Bytes)
    → (get_writes 2 >>= f) (le_bytes 1 (writes_byte tok) ++ rest) ≡ f tok.allow_writes rest
field_writes tok f rest = elim (Bool-cases tok.allow_writes) [
  | inl granted ↦ rw (granted, get_pod-append 1 1 rest (omega arith)) refl
  | inr denied ↦ rw (denied, get_pod-append 1 0 rest (omega arith)) refl
]

-- A token with an address, a port and a secret, whose fields fit their widths, is read back from
-- its serialisation.
pub deserialize_token_payload-serialize_token_payload :
    (tok : Token)
    → UsableToken tok
    → deserialize_token_payload (serialize_token_payload tok) ≡ some tok
unfolding deserialize_token_payload get_token
deserialize_token_payload-serialize_token_payload tok u = rw (serialized tok u) (
    ap (λ (q : Option Token × Bytes). q.0)
      (field_raw 5 payload_magic _ _ refl
        ∙ field_guard _ _ _ (bytes_eq_refl payload_magic)
        ∙ field 4 2 _ _ (omega arith)
        ∙ field_str tok.ip _ _ u.ip_size
        ∙ field 2 tok.port _ _ u.port_size
        ∙ field_str tok.folder _ _ u.folder_size
        ∙ field_writes tok _ _
        ∙ field_bytes tok.secret _ _ u.secret_size
        ∙ field_guard (not (is_empty tok.ip) && not (tok.port == 0) && not (is_empty tok.secret)) _
            _ (rw (u.ip, u.secret, pos→not-==-zero tok.port u.port) refl)))
