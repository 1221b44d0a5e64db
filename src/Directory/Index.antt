-- ===== src/Directory/Index.antt =====
-- What the directory answers is what its last good sync holds (node/directory/cache.py).
use meshlink_node.Prelude.{
  Bytes, Dict, List, Option, Option-cases, [], arith, get, get-put, inl, inr, list_beq_iff, none,
  put, refl, some, some-injective, subst, ◌∷◌, ◌≡◌, ◌≢◌, nat_eq, list_eq,
}
use meshlink_node.Directory.{
  User, Directory, empty_directory, index_usernames, ed_id, index_ed_ids, index, new_directory,
  synced, refresh,
}

none_not_some {ℓ} : {A : Type ℓ} (a : A) → ◌≡◌ {A = Option A} none (some a) → ⊥
none_not_some a e = cc

module _ (pubkey_id : Bytes → Bytes) where
  -- Every row is filed under the id of its own key.
  abbrev pub FiledByKey : Dict Bytes User → Type 0
  FiledByKey d = (k : Bytes) (u : User) → get d k ≡ some u → ed_id pubkey_id u ≡ some k

  put-FiledByKey :
      (d : Dict Bytes User) (k : Bytes) (u : User)
      → ed_id pubkey_id u ≡ some k
      → FiledByKey d
      → FiledByKey (put d k u)
  put-FiledByKey d k u e h j v p = ground (arith, get-put d k j u, list_beq_iff k j, h j v)

  index_ed_ids-FiledByKey :
      (d r : Dict Bytes User) (us : List User)
      → FiledByKey d
      → index_ed_ids pubkey_id d us ≡ some r
      → FiledByKey r
  unfolding index_ed_ids
  index_ed_ids-FiledByKey d r [] h e = subst FiledByKey (some-injective d r e) h
  index_ed_ids-FiledByKey d r (u ∷ us) h e = elim (Option-cases (ed_id pubkey_id u)) [
    | inl p ↦ absurd (none_not_some r (rw (p, index_ed_ids) at e))
    | inr (k, p) ↦
        index_ed_ids-FiledByKey (put d k u) r us (put-FiledByKey d k u p h)
          (rw (p, index_ed_ids) at e)
  ]

  index-FiledByKey :
      (d d' : Directory) (us : List User)
      → index pubkey_id d us ≡ some d'
      → FiledByKey d'.users_by_ed_id
  unfolding index get
  index-FiledByKey d d' us e = elim (Option-cases (index_usernames pubkey_id [] us)) [
    | inl p ↦ absurd (none_not_some d' (rw (p, index) at e))
    | inr (names, p) ↦ elim (Option-cases (index_ed_ids pubkey_id [] us)) [
      | inl q ↦ absurd (none_not_some d' (rw (p, q, index) at e))
      | inr (ids, q) ↦
          let same = some-injective _ d' (rw (p, q, index) at e) in
          subst (λ (x : Directory). FiledByKey x.users_by_ed_id) same
            (index_ed_ids-FiledByKey [] ids us (λ k u r. cc) q)
    ]
  ]

  -- A refresh, whatever comes back, keeps every row filed under the id of its own key; and unless
  -- it succeeds it changes nothing.
  pub refresh-FiledByKey :
      (d : Directory) (response : Option (List User))
      → FiledByKey d.users_by_ed_id
      → FiledByKey (refresh pubkey_id d response).1.users_by_ed_id
        × ((refresh pubkey_id d response).0 ≢ synced → (refresh pubkey_id d response).1 ≡ d)
  unfolding refresh
  refresh-FiledByKey d none h = (h, λ _. refl)
  refresh-FiledByKey d (some us) h = elim (Option-cases (index pubkey_id d us)) [
    | inl p ↦ rw (p, refresh) (h, λ _. refl)
    | inr (d', p) ↦ rw (p, refresh) (index-FiledByKey d d' us p, λ n. absurd (n refl))
  ]

  pub new_directory-FiledByKey :
      (file : Option (List User)) → FiledByKey (new_directory pubkey_id file).users_by_ed_id
  unfolding new_directory get
  new_directory-FiledByKey none = λ k u e. cc
  new_directory-FiledByKey (some us) =
      elim (Option-cases (index pubkey_id (empty_directory (some us)) us)) [
        | inl p ↦ rw (p, new_directory) (λ k u e. cc)
        | inr (d', p) ↦ rw (p, new_directory) (index-FiledByKey (empty_directory (some us)) d' us p)
      ]
