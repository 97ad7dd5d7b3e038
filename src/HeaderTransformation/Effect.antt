-- ===== src/HeaderTransformation/Effect.antt =====
-- header_transformation.go: what becomes of a header.
use sushi_gateway.Prelude.{
  String, ◌≡◌, ◌≢◌, refl, sym, ap, ◌∙◌, true, false, Bool-cases, inl, inr, List, [], ◌∷◌, arith,
  Memᴰ, Memᴰ-cases, str_eq, str_eq_iff, str_eq_refl,
}
use sushi_gateway.Http.{Request, get, first_or_empty, set_header, del_header}
use sushi_gateway.HeaderTransformation.{
  TextOps, HeaderTransformationPlugin, removed_names, pairs_of, apply_all, remove_one, rename_one,
  replace_one, append_one, add_one, execute,
}

-- a loop keeps what each of its steps keeps
apply_all-keeps {ℓ κ} :
    {A : Type ℓ} (P : Request → Type κ) (op : A → Request → Request) (xs : List A) (req : Request)
    → ((x : A) (r : Request) → Memᴰ x xs → P r → P (op x r))
    → P req
    → P (apply_all op xs req)
unfolding apply_all
apply_all-keeps P op [] req keeps h = h
apply_all-keeps P op (x ∷ xs) req keeps h =
    apply_all-keeps P op xs (op x req) (λ y r m. keeps y r (Memᴰ.tail m))
      (keeps x req (Memᴰ.head refl) h)

not_eq : (h k : String) → k ≢ h → str_eq h k ≡ false
not_eq h k n = ground (arith, str_eq_iff h k)

-- a header has a list of values
abbrev Has : String → List String → Request → Type 0
Has h vs r = r.header h ≡ vs

set_header-Has :
    (h k v : String) (vs : List String) (r : Request)
    → k ≢ h
    → Has h vs r
    → Has h vs (set_header k v r)
unfolding set_header
set_header-Has h k v vs r n e = rw (not_eq h k n) e

del_header-Has :
    (h k : String) (vs : List String) (r : Request) → k ≢ h → Has h vs r → Has h vs (del_header k r)
unfolding del_header
del_header-Has h k vs r n e = rw (not_eq h k n) e

del_header-empty : (h k : String) (r : Request) → Has h [] r → Has h [] (del_header k r)
unfolding del_header
del_header-empty h k r e = elim (Bool-cases (str_eq h k)) [ inl q ↦ rw q refl | inr q ↦ rw q e ]

module _ (T : TextOps) (h : String) where
  -- none of the names is the header's
  abbrev pub NoName : List String → Type 0
  NoName ns = (n : String) → Memᴰ n ns → T.canonical n ≢ h

  abbrev pub NoKey : List (String × String) → Type 0
  NoKey ps = (p : String × String) → Memᴰ p ps → T.canonical p.0 ≢ h

  abbrev pub NoNewName : List (String × String) → Type 0
  NoNewName ps = (p : String × String) → Memᴰ p ps → T.canonical p.1 ≢ h

  module _ (vs : List String) (r : Request) where
    remove_one-Has : (n : String) → T.canonical n ≢ h → Has h vs r → Has h vs (remove_one T n r)
    unfolding remove_one
    remove_one-Has n ne e = del_header-Has h (T.canonical n) vs r ne e

    rename_one-Has :
        (p : String × String)
        → T.canonical p.0 ≢ h
        → T.canonical p.1 ≢ h
        → Has h vs r
        → Has h vs (rename_one T p r)
    unfolding rename_one
    rename_one-Has (old, new) n_old n_new e =
        elim (Bool-cases (str_eq (get r (T.canonical old)) "")) [
          | inl q ↦ rw q e
          | inr q ↦ rw q (
              set_header-Has h (T.canonical new) _ vs _ n_new
                (del_header-Has h (T.canonical old) vs r n_old e))
        ]

    replace_one-Has :
        (p : String × String) → T.canonical p.0 ≢ h → Has h vs r → Has h vs (replace_one T p r)
    unfolding replace_one
    replace_one-Has (k, v) ne e = elim (Bool-cases (str_eq (get r (T.canonical k)) "")) [
      | inl q ↦ rw q e
      | inr q ↦ rw q (set_header-Has h (T.canonical k) v vs r ne e)
    ]

    append_one-Has :
        (p : String × String) → T.canonical p.0 ≢ h → Has h vs r → Has h vs (append_one T p r)
    unfolding append_one
    append_one-Has (k, v) ne e = set_header-Has h (T.canonical k) _ vs r ne e

    add_one-Has :
        (p : String × String) → T.canonical p.0 ≢ h → Has h vs r → Has h vs (add_one T p r)
    unfolding add_one
    add_one-Has (k, v) ne e = set_header-Has h (T.canonical k) _ vs r ne e

  -- an empty header stays so under a rename to another name and under any replacement
  rename_one-empty :
      (p : String × String) (r : Request)
      → T.canonical p.1 ≢ h
      → Has h [] r
      → Has h [] (rename_one T p r)
  unfolding rename_one
  rename_one-empty (old, new) r nn e = elim (Bool-cases (str_eq (get r (T.canonical old)) "")) [
    | inl q ↦ rw q e
    | inr q ↦
        rw q
          (set_header-Has h (T.canonical new) _ [] _ nn (del_header-empty h (T.canonical old) r e))
  ]

  replace_one-empty :
      (p : String × String) (r : Request) → Has h [] r → Has h [] (replace_one T p r)
  unfolding replace_one
  replace_one-empty (k, v) r e = elim (Bool-cases (str_eq (T.canonical k) h)) [
    | inl q ↦
        let same = (str_eq_iff (T.canonical k) h).0 q in
        let none_there : get r (T.canonical k) ≡ "" = ap (get r) same ∙ ap first_or_empty e in
        let t : str_eq (get r (T.canonical k)) "" ≡ true = (str_eq_iff _ _).1 none_there in rw t e
    | inr q ↦ replace_one-Has [] r (k, v) (differs q) e
  ]
    where
      differs : str_eq (T.canonical k) h ≡ false → T.canonical k ≢ h
      differs q e2 = ground (arith, str_eq_iff (T.canonical k) h)

  remove_one-empty : (n : String) (r : Request) → T.canonical n ≡ h → Has h [] (remove_one T n r)
  unfolding remove_one del_header
  remove_one-empty n r e = rw e (rw (str_eq_refl h) refl)

  remove_all-empty :
      (ns : List String) (r : Request) (n : String)
      → Memᴰ n ns
      → T.canonical n ≡ h
      → Has h [] (apply_all (remove_one T) ns r)
  unfolding apply_all
  remove_all-empty [] r n m e = elim m [ ]
  remove_all-empty (x ∷ xs) r n m e = elim (Memᴰ-cases m) [
    | inl same ↦
        apply_all-keeps (Has h []) (remove_one T) xs (remove_one T x r)
          (λ y s _ k. unfold remove_one in del_header-empty h (T.canonical y) s k)
          (remove_one-empty x r (ap T.canonical (sym same) ∙ e))
    | inr k ↦ remove_all-empty xs (remove_one T x r) n k e
  ]

  module _ (p : HeaderTransformationPlugin) (req : Request) where
    -- A header that no operation names stays as it is.
    pub execute-untouched :
        NoName (removed_names p.remove)
        → NoKey (pairs_of T p.rename)
        → NoNewName (pairs_of T p.rename)
        → NoKey (pairs_of T p.replace)
        → NoKey (pairs_of T p.append)
        → NoKey (pairs_of T p.add)
        → (execute T p req).header h ≡ req.header h
    unfolding execute
    execute-untouched removed old new replaced appended added =
        let P = Has h (req.header h) in
        let vs = req.header h in
        apply_all-keeps P (add_one T) (pairs_of T p.add) _ (λ x r m. add_one-Has vs r x (added x m))
          (apply_all-keeps P (append_one T) (pairs_of T p.append) _
            (λ x r m. append_one-Has vs r x (appended x m))
            (apply_all-keeps P (replace_one T) (pairs_of T p.replace) _
              (λ x r m. replace_one-Has vs r x (replaced x m))
              (apply_all-keeps P (rename_one T) (pairs_of T p.rename) _
                (λ x r m. rename_one-Has vs r x (old x m) (new x m))
                (apply_all-keeps P (remove_one T) (removed_names p.remove) req
                  (λ x r m. remove_one-Has vs r x (removed x m)) refl))))

    -- A header that is removed is gone, unless another is renamed to it or a value is appended or
    -- added to it; a replacement of it does not bring it back.
    pub execute-removed :
        (n : String)
        → Memᴰ n (removed_names p.remove)
        → T.canonical n ≡ h
        → NoNewName (pairs_of T p.rename)
        → NoKey (pairs_of T p.append)
        → NoKey (pairs_of T p.add)
        → (execute T p req).header h ≡ []
    unfolding execute
    execute-removed n m e new appended added =
        let P = Has h [] in
        apply_all-keeps P (add_one T) (pairs_of T p.add) _ (λ x r k. add_one-Has [] r x (added x k))
          (apply_all-keeps P (append_one T) (pairs_of T p.append) _
            (λ x r k. append_one-Has [] r x (appended x k))
            (apply_all-keeps P (replace_one T) (pairs_of T p.replace) _
              (λ x r _. replace_one-empty x r)
              (apply_all-keeps P (rename_one T) (pairs_of T p.rename) _
                (λ x r k. rename_one-empty x r (new x k))
                (remove_all-empty (removed_names p.remove) req n m e))))
