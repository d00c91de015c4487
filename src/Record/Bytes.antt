-- ===== src/Record/Bytes.antt =====
-- `Keep` over the bytes is the merge of what they decode to.
use alborz.Prelude.{false, some, ok, ◌≡◌, inl, inr, arith, Option-cases}
use alborz.Record.Values.{Json}
use alborz.Record.{Coding, strip, graft, merge, keep}

module _ {T : Type 0} (c : Coding T) where
  open c use {Bytes, is_empty, marshal, unmarshal, decode, encode}

  -- What the decoder says of the stored bytes and of the new ones.
  pub record Reads (old : Bytes) (v : T) (stored understood written : Json) : Type 0 where
    pub known : T
    pub seen : Bytes
    pub fresh : Bytes
    pub held : is_empty old ≡ false
    pub old_decodes : decode old ≡ some stored
    pub old_is_known : unmarshal old ≡ some known
    pub known_encodes : marshal known ≡ some seen
    pub seen_decodes : decode seen ≡ some understood
    pub new_encodes : marshal v ≡ some fresh
    pub fresh_decodes : decode fresh ≡ some written

  -- Where the stored bytes decode, to a map and to the type, what `Keep` returns decodes to the
  -- merge of the two records, if what encoding/json encodes decodes to the same value.
  pub keep-merge :
      (old new : Bytes) (v : T) {stored understood written : Json}
      → ((j : Json) (b : Bytes) → encode j ≡ some b → decode b ≡ some j)
      → Reads old v stored understood written
      → keep c old v ≡ ok new
      → decode new ≡ some (merge stored understood written)
  unfolding keep merge
  keep-merge old new v {stored} {understood} {written} law r h =
      elim (Option-cases (strip stored understood)) [
        | inl e ↦ ground (arith, e)
        | inr (unknown, e) ↦ elim (Option-cases (encode (graft written unknown understood))) [
          | inl f ↦ absurd (ground (arith, e, f))
          | inr (b, f) ↦ ground (arith, e, f, law (graft written unknown understood) b f)
        ]
      ]
