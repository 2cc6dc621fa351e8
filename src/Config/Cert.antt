-- ===== src/Config/Cert.antt =====
-- internal/config/config.go: `LoadOrGenerateCert` and `generateSelfSigned`. What the crypto libraries do
-- is a parameter, none for an error. Of the template the fields are kept that the program computes.
use mathlib.Core.Option
use mathlib.Core.Option.{bind-eq-some_iff}
use px_smt_multirealm_shim.Common.{
  ℕ, ◌-◌, ◌≡◌, ◌⊎◌, inl, inr, refl, not, ◌&&◌, Bool-cases, Option, some, List, [], ◌∷◌,
  if◌then◌else◌,
}
use px_smt_multirealm_shim.Bytes.{Bytes, codes, same}
use px_smt_multirealm_shim.Config.Env.{Config}

-- `x509.Certificate`; the times are in seconds
pub record Template (Serial : Type 0) : Type 0 where
  pub serial : Serial
  pub common_name : Bytes
  pub not_before : ℕ
  pub not_after : ℕ
  pub dns_names : List Bytes

-- `tls.LoadX509KeyPair`, `rsa.GenerateKey` for 2048 bits, `rand.Int` below 2^128, the time and
-- `AddDate` in years, `x509.CreateCertificate`, and `tls.X509KeyPair` of what is encoded as PEM
pub record Crypto (Key Serial Der Cert : Type 0) : Type 0 where
  pub load_pair : Bytes → Bytes → Option Cert
  pub key : Option Key
  pub serial : Option Serial
  pub now : ℕ
  pub add_years : ℕ → ℕ → ℕ
  pub create : Template Serial → Key → Option Der
  pub key_pair : Der → Key → Option Cert

module _ {Key Serial Der Cert : Type 0} (crypto : Crypto Key Serial Der Cert) where
  unfoldable pub template : List Bytes → Serial → Template Serial
  template sans serial = record {
    serial = serial;
    common_name = codes "px-shim";
    not_before = crypto.now - 3600;
    not_after = crypto.add_years crypto.now 5;
    dns_names = codes "localhost" ∷ codes "px-shim" ∷ sans;
  }

  -- `generateSelfSigned`
  unfoldable pub generate_self_signed : List Bytes → Option Cert
  unfolding template
  generate_self_signed sans = Option.bind crypto.key λ key. Option.bind crypto.serial λ serial.
      Option.bind (crypto.create (template sans serial) key) λ der. crypto.key_pair der key

  -- `LoadOrGenerateCert`
  unfoldable pub load_or_generate_cert : Config → Option Cert
  unfolding same generate_self_signed
  load_or_generate_cert cfg =
      if not (same cfg.cert_file []) && not (same cfg.key_file [])
      then crypto.load_pair cfg.cert_file cfg.key_file
      else generate_self_signed cfg.cert_sans

  -- the certificate was made for these names
  abbrev pub IsIssuedFor : List Bytes → Cert → Type 0
  IsIssuedFor names cert =
      (t : Template Serial) × (key : Key) × (der : Der) × (crypto.create t key ≡ some der)
      × (crypto.key_pair der key ≡ some cert)
      × (t.dns_names ≡ names)

  generated-IsIssuedFor :
      (sans : List Bytes) (cert : Cert)
      → generate_self_signed sans ≡ some cert
      → IsIssuedFor (codes "localhost" ∷ codes "px-shim" ∷ sans) cert
  unfolding generate_self_signed template
  generated-IsIssuedFor sans cert h =
      let (key, _, h') = (bind-eq-some_iff crypto.key _).0 h in
      let (serial, _, h'') = (bind-eq-some_iff crypto.serial _).0 h' in
      let (der, made, paired) =
        (bind-eq-some_iff (crypto.create (template sans serial) key) _).0 h'' in
      (template sans serial, key, der, made, paired, refl)

  -- A certificate is loaded from the two files, or made for localhost, px-shim and the configured names.
  pub cert_source :
      (cfg : Config) (cert : Cert)
      → load_or_generate_cert cfg ≡ some cert
      → (crypto.load_pair cfg.cert_file cfg.key_file ≡ some cert)
        ⊎ IsIssuedFor (codes "localhost" ∷ codes "px-shim" ∷ cfg.cert_sans) cert
  unfolding load_or_generate_cert
  cert_source cfg cert h =
      elim (Bool-cases (not (same cfg.cert_file []) && not (same cfg.key_file []))) [
        | inl e ↦ inl (rw (load_or_generate_cert, e) at h)
        | inr e ↦
            inr (generated-IsIssuedFor cfg.cert_sans cert (rw (load_or_generate_cert, e) at h))
      ]
