-- ===== src/Plugins/Marketplaces/Trust.antt =====
-- With which key a package is checked, and from which marketplace it comes.
use nova_nas.Base.{
  ◌≡◌, sym, inl, inr, none, some, Text, text_eq, lookup, ok, arith, Option-cases, Result-cases,
}
use nova_nas.Plugins.Marketplaces.{
  Network, Marketplace, IndexVersion, Rows, get_row, check_package, download_and_verify,
}

module _ (net : Network) where
  -- A package that is handed on was downloaded with a signature that the check accepts with the key pinned
  -- for its own marketplace.
  pub download_and_verify_ok :
      (rows : Rows net) (id : Text) (v : IndexVersion) (tarball : net.Tarball)
      → download_and_verify net rows id v ≡ ok tarball
      → (m : Marketplace) × (sig : Text) × (lookup rows id ≡ some m)
        × (net.download m.index_url v ≡ ok (tarball, sig))
        × (net.verify m.trust_key_pem tarball sig ≡ none)
  unfolding download_and_verify get_row check_package
  download_and_verify_ok rows id v tarball h = elim (Option-cases (lookup rows id)) [
    | inl gone ↦ absurd (ground (arith, h, gone))
    | inr (m, there) ↦ elim (Result-cases (net.download m.index_url v)) [
      | inl (msg, bad) ↦ absurd (ground (arith, h, there, bad))
      | inr ((tb, sig), got) ↦ elim (Option-cases (net.verify m.trust_key_pem tb sig)) [
        | inr (msg, refused) ↦ absurd (ground (arith, h, there, got, refused))
        | inl accepted ↦
            let same : (tb ≡ tarball) = ground (arith, h, there, got, accepted) in
            (m, sig, there, rw (sym same) got, rw (sym same) accepted)
      ]
    ]
  ]
