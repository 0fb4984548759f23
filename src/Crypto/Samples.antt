-- ===== src/Crypto/Samples.antt =====
-- A cipher that keeps the plaintext and ties it to its associated data, and bytes written as strokes.
use mathlib.Core.Path.{subst}
use Prim.Native.Char.{code}
use legacy_vault.Base.{
  ℕ, zero, suc, ◌+◌, ◌≡◌, refl, sym, ap, ◌∙◌, String, none, some, List, [], ◌∷◌, arith, nat_beq,
  nat_eq, if◌then◌else◌, same_items, same_items_iff,
}
use legacy_vault.Crypto.Envelopes.{NodeCrypto}
use legacy_vault.Crypto.Envelopes.Opening.{OpensSealed}

pub strokes : ℕ → String → String
strokes zero s = String.◌∷◌ "," s
strokes (suc n) s = String.◌∷◌ "i" (strokes n s)

unfoldable pub pack : List ℕ → String
pack [] = ""
pack (n ∷ l) = strokes n (pack l)

unfoldable pub unpack : ℕ → String → List ℕ
unpack n String.[] = []
unpack n (String.◌∷◌ c s) = if nat_beq (code c) b',' then n ∷ unpack 0 s else unpack (n + 1) s

unpack-strokes : (m n : ℕ) (s : String) → unpack m (strokes n s) ≡ (m + n) ∷ unpack 0 s
unfolding unpack strokes
unpack-strokes m zero s = ap (λ k. k ∷ unpack 0 s) (omega arith)
unpack-strokes m (suc n) s = unpack-strokes (m + 1) n s ∙ ap (λ k. k ∷ unpack 0 s) (omega arith)

zero_add : (n : ℕ) → 0 + n ≡ n
zero_add n = omega arith

unpack-pack : (l : List ℕ) → unpack 0 (pack l) ≡ l
unfolding pack unpack
unpack-pack [] = refl
unpack-pack (n ∷ l) =
    unpack-strokes 0 n (pack l)
    ∙ (ap (λ k. k ∷ unpack 0 (pack l)) (zero_add n) ∙ ap (λ r. n ∷ r) (unpack-pack l))

abbrev pub node : NodeCrypto
node = record {
  encrypt = λ key iv aad plaintext. (plaintext, aad);
  decrypt = λ key iv aad ciphertext tag. if same_items tag aad then some ciphertext else none;
  to_base64 = pack;
  from_base64 = unpack 0;
  utf8 = λ s. 1 ∷ [];
  decimal = λ n. "1";
  public_key = λ s. some s;
  signature = λ private manifest. manifest;
  verifies = λ manifest signature public. same_items manifest signature;
}

pub node-OpensSealed : OpensSealed node
node-OpensSealed = record {
  opens = λ key iv aad p.
      subst (λ b. (if b then some p else none) ≡ some p) (sym ((same_items_iff aad aad).1 refl))
        refl;
  base64 = unpack-pack;
}

abbrev eight : List ℕ → List ℕ
eight l = 1 ∷ 2 ∷ 3 ∷ 4 ∷ 5 ∷ 6 ∷ 7 ∷ 8 ∷ l

abbrev pub long_key : List ℕ
long_key = eight (eight (eight (eight [])))
