-- ===== src/Panel/Client/Repeated.antt =====
-- The same answer twice.
use ccaa.Base.{
  ℤ, String, string_eq, nat_eq, true, false, Bool-cases, ◌≡◌, refl, inl, inr, ◌==◌, beq_refl,
}
use ccaa.Panel.Client.{Client, Decoders, Response, unchanged, get_node_info}

module _ (json : Decoders) (atoi : String → ℤ) (hash : String → String) where
  get_node_info_known :
      (r : Response) (c : Client)
      → (r.status == 304) ≡ false
      → (c.response_body_hash == hash r.body) ≡ true
      → get_node_info json atoi hash r c ≡ (c, unchanged)
  unfolding get_node_info
  get_node_info_known r c h e = rw (h, e) refl

  get_node_info-keeps_hash :
      (r : Response) (c : Client)
      → (r.status == 304) ≡ false
      → ((get_node_info json atoi hash r c).0.response_body_hash == hash r.body) ≡ true
  unfolding get_node_info
  get_node_info-keeps_hash r c h = elim (Bool-cases (c.response_body_hash == hash r.body)) [
    | inl e ↦ rw (h, e) e
    | inr e ↦ rw (h, e) (beq_refl (hash r.body))
  ]

  -- An answer with a status other than 304 is kept in the client whatever comes of it, an error or a
  -- panic included: when it comes once more, the client reports that nothing has changed and stays
  -- as it is.
  pub get_node_info-repeated :
      (r : Response) (c : Client)
      → (r.status == 304) ≡ false
      → let d = (get_node_info json atoi hash r c).0 in
        get_node_info json atoi hash r d ≡ (d, unchanged)
  get_node_info-repeated r c h =
      get_node_info_known r (get_node_info json atoi hash r c).0 h (get_node_info-keeps_hash r c h)
