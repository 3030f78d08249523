-- ===== src/Store/Log.antt =====
-- store/store.go: a read gives what the last write before it left, whoever wrote it.
use loom.Crypto.{Bytes}
use loom.Store.{
  Nuts, default_bucket, nuts_get, StoreReq, read_req, write_req, serve, serve_all, read,
}
use loom.Prelude.{
  ◌≡◌, refl, sym, ap, ◌∙◌, ◌≢◌, inl, inr, Option, none, some, List, [], ◌∷◌, if◌then◌else◌,
  Option-cases,
}
use loom.Prelude.Eq.{◌==◌, nat_eq, int_eq, string_eq, list_eq, ==-false, ==-cases}

module _ (n : Nuts) where
  -- What nutsdb documents of an open database: a transaction starts, a committed value is read back
  -- under its key, the other keys keep theirs, and an update with an error is rolled back.
  pub record IsDatabase : Type 0 where
    pub starts : (s : n.State) → n.begin s ≡ none
    pub put_back :
        (key val : Bytes) (s : n.State)
        → (n.put default_bucket key val s).1 ≡ none
        → n.get default_bucket key (n.put default_bucket key val s).0 ≡ (val, none)
    pub put_others :
        (key k val : Bytes) (s : n.State)
        → key ≢ k
        → n.get default_bucket k (n.put default_bucket key val s).0 ≡ n.get default_bucket k s
    pub rolled_back :
        (key val : Bytes) (s : n.State) (e : n.Err)
        → (n.put default_bucket key val s).1 ≡ some e
        → (n.put default_bucket key val s).0 ≡ s

  -- The value of the last write of a key among answered requests that met no error.
  unfoldable pub last_write : Bytes → List (StoreReq n) → Option Bytes
  last_write key [] = none
  last_write key (read_req k val err ∷ rs) = last_write key rs
  last_write key (write_req k val err ∷ rs) = elim (last_write key rs) [
    | some later ↦ some later
    | none ↦ elim err [ some e ↦ none | none ↦ if k == key then some val else none ]
  ]

  abbrev pub or_value : Option Bytes → Bytes × Option n.Err → Bytes × Option n.Err
  or_value none before = before
  or_value (some val) before = (val, none)

  read-get : (key : Bytes) (s : n.State) → IsDatabase → read n key s ≡ n.get default_bucket key s
  unfolding read serve nuts_get
  read-get key s h = rw (nuts_get, h.starts s) refl

  -- What a read gives behind one write.
  pub read-put :
      (key k val : Bytes) (s : n.State)
      → IsDatabase
      → read n key (n.put default_bucket k val s).0
        ≡ or_value
            (last_write key (write_req k val (n.put default_bucket k val s).1 ∷ []))
            (read n key s)
  unfolding last_write
  read-put key k val s h = elim (Option-cases (n.put default_bucket k val s).1) [
    | inl done ↦
        let s' = (n.put default_bucket k val s).0 in
        elim (==-cases k key) [
          | inl same ↦
              let back : n.get default_bucket key s' ≡ (val, none) =
                ap (λ x. n.get default_bucket x s') (sym same) ∙ h.put_back k val s done in
              rw (done, (list_eq.same_iff k key).1 same) (read-get key s' h ∙ back)
          | inr other ↦
              rw (done, ==-false k key other)
                (read-get key s' h ∙ h.put_others k key val s other ∙ sym (read-get key s h))
        ]
    | inr (e, failed) ↦ rw failed (ap (read n key) (h.rolled_back k val s e failed))
  ]

  last_write-cons :
      (key : Bytes) (r : StoreReq n) (rs : List (StoreReq n)) (before : Bytes × Option n.Err)
      → or_value (last_write key (r ∷ rs)) before
        ≡ or_value (last_write key rs) (or_value (last_write key (r ∷ [])) before)
  unfolding last_write
  last_write-cons key (read_req k val err) rs before = refl
  last_write-cons key (write_req k val err) rs before = elim (Option-cases (last_write key rs)) [
    | inl quiet ↦ rw quiet refl
    | inr (v, wrote) ↦ rw wrote refl
  ]

  -- On an open database, a read behind any requests gives the value of the last write of its key that
  -- met no error, and what was stored before where there is none.
  pub read-serve_all :
      (key : Bytes) (rs : List (StoreReq n)) (s : n.State)
      → IsDatabase
      → read n key (serve_all n rs s).1
        ≡ or_value (last_write key (serve_all n rs s).0) (read n key s)
  unfolding serve_all serve last_write
  read-serve_all key [] s h = refl
  read-serve_all key (read_req k val err ∷ rs) s h = read-serve_all key rs s h
  read-serve_all key (write_req k val err ∷ rs) s h =
      let (s', err') = n.put default_bucket k val s in
      let (rest, end) = serve_all n rs s' in
      read-serve_all key rs s' h
      ∙ ap (or_value (last_write key rest)) (read-put key k val s h)
      ∙ sym (last_write-cons key (write_req k val err') rest (read n key s))
