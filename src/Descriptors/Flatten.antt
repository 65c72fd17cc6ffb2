-- ===== src/Descriptors/Flatten.antt =====
-- The descriptors of a tree in a row, each as its type and what follows its header, as the scan of
-- `usbi_get_intf_altno` passes over them.
use libopenusb.Prelude.{
  ◌==◌, if◌then◌else◌, length, drop, ℕ, ◌+◌, ◌≡◌, refl, sym, ap, ◌≢◌, false, List, [], ◌∷◌, ◌++◌,
  append_assoc, arith,
}
use libopenusb.Codes.{type_interface}
use libopenusb.ParseData.Layout.{encode}
use libopenusb.Descriptors.{is_proper}
use libopenusb.Descriptors.Tree.{
  ExtraDesc, EndpointTree, AltTree, encode_extra, encode_extras, endpoint_fields, interface_fields,
  encode_endpoints, encode_alts, ExtraOk, All, EndpointOk, AltOk,
}
use libopenusb.Descriptors.AltCountLaws.{hits, count_hits, ScanOk}

abbrev pub raw_of : ℕ → List ℕ → ExtraDesc
raw_of kind bytes = record { kind = kind; payload = drop 2 bytes }

abbrev pub raws_endpoints : List EndpointTree → List ExtraDesc
raws_endpoints [] = []
raws_endpoints (e ∷ es) =
    raw_of e.desc.b_descriptor_type (encode (endpoint_fields e.desc))
    ∷ (e.extras ++ raws_endpoints es)

abbrev pub raw_alt : AltTree → ExtraDesc
raw_alt a = raw_of a.desc.b_descriptor_type (encode (interface_fields a.desc))

abbrev pub raws_alts : List AltTree → List ExtraDesc
raws_alts [] = []
raws_alts (a ∷ alts) = raw_alt a ∷ (a.extras ++ (raws_endpoints a.endpoints ++ raws_alts alts))

pub encode_extras-append :
    (xs ys : List ExtraDesc) → encode_extras (xs ++ ys) ≡ encode_extras xs ++ encode_extras ys
encode_extras-append [] ys = refl
encode_extras-append (x ∷ xs) ys =
    rw (encode_extras-append xs ys)
      (sym (append_assoc (encode_extra x) (encode_extras xs) (encode_extras ys)))

encode_raw-endpoint :
    (e : EndpointTree)
    → EndpointOk e
    → encode_extra (raw_of e.desc.b_descriptor_type (encode (endpoint_fields e.desc)))
      ≡ encode (endpoint_fields e.desc)
encode_raw-endpoint e v = ground (arith, v.size)

pub encode_raws-endpoints :
    (es : List EndpointTree)
    → All EndpointOk es
    → encode_extras (raws_endpoints es) ≡ encode_endpoints es
encode_raws-endpoints [] v = refl
encode_raws-endpoints (e ∷ es) v =
    simp (encode_extras-append, encode_raws-endpoints es v.1, append_assoc)
      (ap (λ l. l ++ (encode_extras e.extras ++ encode_endpoints es)) (encode_raw-endpoint e v.0))

encode_raw-alt :
    (ifc : ℕ) (a : AltTree)
    → AltOk ifc a
    → encode_extra (raw_alt a) ≡ encode (interface_fields a.desc)
encode_raw-alt ifc a v = ground (arith, v.size)

pub encode_raws-alts :
    (ifc : ℕ) (alts : List AltTree)
    → All (AltOk ifc) alts
    → encode_extras (raws_alts alts) ≡ encode_alts alts
encode_raws-alts ifc [] v = refl
encode_raws-alts ifc (a ∷ alts) v =
    simp
      (
        encode_extras-append,
        encode_raws-endpoints a.endpoints v.0.endpoints,
        encode_raws-alts ifc alts v.1,
        append_assoc,
      )
      (ap (λ l. l ++ (encode_extras a.extras ++ (encode_endpoints a.endpoints ++ encode_alts alts)))
        (encode_raw-alt ifc a v.0))

pub All-append {ℓ κ} :
    {A : Type ℓ} (P : A → Type κ) (xs ys : List A) → All P xs → All P ys → All P (xs ++ ys)
All-append P [] ys hx hy = hy
All-append P (x ∷ xs) ys hx hy = (hx.0, All-append P xs ys hx.1 hy)

ExtraOk-ScanOk : (xs : List ExtraDesc) → All ExtraOk xs → All ScanOk xs
unfolding is_proper
ExtraOk-ScanOk [] v = tt
ExtraOk-ScanOk (x ∷ xs) v = ((v.0.1, λ k. absurd (ground arith)), ExtraOk-ScanOk xs v.1)

raws_endpoints-ScanOk :
    (es : List EndpointTree) → All EndpointOk es → All ScanOk (raws_endpoints es)
raws_endpoints-ScanOk [] v = tt
raws_endpoints-ScanOk (e ∷ es) v = (
  (ground (arith, v.0.size), λ k. omega arith),
  All-append ScanOk e.extras (raws_endpoints es) (ExtraOk-ScanOk e.extras v.0.extras)
      (raws_endpoints-ScanOk es v.1),
)

pub raws_alts-ScanOk :
    (ifc : ℕ) (alts : List AltTree) → All (AltOk ifc) alts → All ScanOk (raws_alts alts)
raws_alts-ScanOk ifc [] v = tt
raws_alts-ScanOk ifc (a ∷ alts) v = (
  (omega arith, λ k. omega arith),
  All-append ScanOk a.extras (raws_endpoints a.endpoints ++ raws_alts alts)
      (ExtraOk-ScanOk a.extras v.0.extras)
      (All-append ScanOk (raws_endpoints a.endpoints) (raws_alts alts)
        (raws_endpoints-ScanOk a.endpoints v.0.endpoints) (raws_alts-ScanOk ifc alts v.1)),
)

pub count_hits-append :
    (fno : ℕ) (xs ys : List ExtraDesc)
    → count_hits fno (xs ++ ys) ≡ count_hits fno xs + count_hits fno ys
count_hits-append fno [] ys = omega arith
count_hits-append fno (x ∷ xs) ys = omega (arith, count_hits-append fno xs ys)

miss : (fno : ℕ) (r : ExtraDesc) → r.kind ≢ type_interface → hits fno r ≡ false
miss fno r ne = go r.payload
  where
    go : (p : List ℕ) → hits fno (record { kind = r.kind; payload = p }) ≡ false
    go [] = refl
    go (i ∷ is) = ground arith

count-extras : (fno : ℕ) (xs : List ExtraDesc) → All ExtraOk xs → count_hits fno xs ≡ 0
unfolding is_proper
count-extras fno [] v = refl
count-extras fno (x ∷ xs) v = ground (arith, miss fno x, count-extras fno xs v.1)

count-endpoints :
    (fno : ℕ) (es : List EndpointTree) → All EndpointOk es → count_hits fno (raws_endpoints es) ≡ 0
count-endpoints fno [] v = refl
count-endpoints fno (e ∷ es) v = ground (
  arith,
  miss fno (raw_of e.desc.b_descriptor_type (encode (endpoint_fields e.desc))),
  v.0.kind,
  count_hits-append fno e.extras (raws_endpoints es),
  count-extras fno e.extras v.0.extras,
  count-endpoints fno es v.1,
)

-- The alternate settings of one interface are counted each, those of another not.
pub count-alts :
    (fno ifc : ℕ) (alts : List AltTree)
    → All (AltOk ifc) alts
    → count_hits fno (raws_alts alts) ≡ (if ifc == fno then length alts else 0)
count-alts fno ifc [] v = ground arith
count-alts fno ifc (a ∷ alts) v = ground (
  arith,
  v.0.kind,
  v.0.number,
  count_hits-append fno a.extras (raws_endpoints a.endpoints ++ raws_alts alts),
  count_hits-append fno (raws_endpoints a.endpoints) (raws_alts alts),
  count-extras fno a.extras v.0.extras,
  count-endpoints fno a.endpoints v.0.endpoints,
  count-alts fno ifc alts v.1,
)
