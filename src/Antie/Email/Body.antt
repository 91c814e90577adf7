-- ===== src/Antie/Email/Body.antt =====
-- antie/src/email.rs: which bodies are opened, and which mails reach a handler.
use axiom_carriers.Base.{
  true, false, ◌≡◌, ◌↔◌, inl, inr, Option, Option-cases, Bool-cases, some, none, arith,
}
use axiom_carriers.Base.Text.{Text}
use axiom_carriers.Base.Result.{ok}
use axiom_carriers.Disk.{Bytes}
use axiom_carriers.Antie.Email.{
  Codecs, plain, encrypted, unwrap_by_format, requires_envelope, unseal,
}

module _ (k : Codecs) where
  -- The ways in which a decoded body may yield `b`.
  pub data Yields (message_type : Text) (decoded b : Bytes) : Type 0 where
    from_plain :
        requires_envelope message_type ≡ true
        → k.from_cbor decoded ≡ some (plain b)
        → Yields message_type decoded b
    from_sealed :
        requires_envelope message_type ≡ true
        → (sealed : Bytes) (d : Bytes → Option Bytes)
        → k.from_cbor decoded ≡ some (encrypted sealed)
        → k.decryptor ≡ some d
        → d sealed ≡ some b
        → Yields message_type decoded b
    from_bare :
        requires_envelope message_type ≡ false
        → k.from_cbor decoded ≡ none
        → decoded ≡ b
        → Yields message_type decoded b

  sealed_yields :
      (t : Text) (decoded b sealed : Bytes)
      → requires_envelope t ≡ true
      → k.from_cbor decoded ≡ some (encrypted sealed)
      → unseal k k.decryptor sealed ≡ ok b
      → Yields t decoded b
  sealed_yields t decoded b sealed q s e = elim (Option-cases k.decryptor) [
    | inl n ↦ absurd (ground (arith, e, n))
    | inr (d, h) ↦ elim (Option-cases (d sealed)) [
      | inl n ↦ absurd (ground (arith, e, h, n))
      | inr (b', o) ↦ from_sealed q sealed d s h (ground (arith, e, h, o))
    ]
  ]

  yields : (t : Text) (decoded b : Bytes) → unwrap_by_format k t decoded ≡ ok b → Yields t decoded b
  unfolding unwrap_by_format
  yields t decoded b e = elim (Bool-cases (requires_envelope t)) [
    | inl q ↦ elim (Option-cases (k.from_cbor decoded)) [
      | inl n ↦ absurd (ground (arith, e, q, n))
      | inr (plain b', s) ↦ from_plain q (ground (arith, e, q, s))
      | inr (encrypted sealed, s) ↦ sealed_yields t decoded b sealed q s (ground (arith, e, q, s))
    ]
    | inr q ↦ elim (Option-cases (k.from_cbor decoded)) [
      | inl n ↦ from_bare q n (ground (arith, e, q, n))
      | inr (env, s) ↦ absurd (ground (arith, e, q, s))
    ]
  ]

  unwrapped :
      (t : Text) (decoded b : Bytes) → Yields t decoded b → unwrap_by_format k t decoded ≡ ok b
  unfolding unwrap_by_format
  unwrapped t decoded b (from_plain q s) = ground (arith, q, s)
  unwrapped t decoded b (from_sealed q sealed d s h o) = ground (arith, q, s, h, o)
  unwrapped t decoded b (from_bare q s e) = ground (arith, q, s, e)

  -- A body is opened to `b` exactly if a mail of a client carries `b` in a plain envelope or in one that
  -- the decryptor opens to `b`, or if a message between validators is `b` itself and no envelope.
  pub unwrap_by_format_iff :
      (t : Text) (decoded b : Bytes) → (unwrap_by_format k t decoded ≡ ok b) ↔ Yields t decoded b
  unwrap_by_format_iff t decoded b = (yields t decoded b, unwrapped t decoded b)
