-- ===== src/Wire/RoundTrip/Descriptions.antt =====
-- What arrives of the object descriptions of an announcement.
use xmppconn.Base.{
  HasKeysOnce, is_some, get_or, subst, Bool-cases, inl, inr, Option, none, lookup, lookup-insert,
  bytes_eq, bytes_eq_iff, if◌then◌else◌, true, false, some, List, [], ◌∷◌, ◌++◌, Bytes, Map, insert,
  bytes_key, ◌≡◌, ◌≢◌, refl, ap, sym, ◌∙◌, arith, All, append_assoc, append-nil, bind-some,
  some-inj,
}
use xmppconn.Text.{find}
use xmppconn.Wire.{Stream, istringstream, ◌<<◌, istringstream-line}
use xmppconn.Wire.Objects.RoundTrip.{listed, has_name, IsLine, append-line}
use xmppconn.Wire.Send.{alljoyn_xmpp_suffix, write_names, write_descriptions}
use xmppconn.Wire.Receive.{parse_descriptions, starts_path}

-- An interface name of an announcement, and the path of an object: they differ in the first byte.
pub record IsName (n : Bytes) : Type 0 where
  pub line : IsLine n
  pub no_path : starts_path n ≡ false

pub record IsDescription (d : Bytes × List Bytes) : Type 0 where
  pub path_line : IsLine d.0
  pub path_start : starts_path d.0 ≡ true
  pub names_ok : All IsName d.1

-- The entries one after the other.
abbrev pub collect : Map Bytes (List Bytes) → Map Bytes (List Bytes) → Map Bytes (List Bytes)
collect m [] = m
collect m ((path, names) ∷ ds) = collect (insert path names m) ds

parse_name :
    (path n : Bytes) (acc : List Bytes) (m : Map Bytes (List Bytes)) (s : Stream)
    → path ≢ []
    → IsName n
    → parse_descriptions path acc m (n ∷ s) ≡ parse_descriptions path (acc ++ n ∷ []) m s
unfolding parse_descriptions
parse_name path n acc m s hp h = ground (arith, h.no_path, h.line.some_text)

parse_path :
    (path p : Bytes) (acc : List Bytes) (m : Map Bytes (List Bytes)) (s : Stream)
    → path ≢ []
    → p ≢ []
    → starts_path p ≡ true
    → parse_descriptions path acc m (p ∷ s) ≡ parse_descriptions p [] (insert path acc m) s
unfolding parse_descriptions
parse_path path p acc m s hp h h' = ground (arith, h, h')

parse_first :
    (p : Bytes) (m : Map Bytes (List Bytes)) (s : Stream)
    → p ≢ []
    → parse_descriptions [] [] m (p ∷ s) ≡ parse_descriptions p [] m s
unfolding parse_descriptions
parse_first p m s h = ground (arith, h)

write_names-cons :
    (n : Bytes) (ns : List Bytes) (w : Bytes)
    → write_names (n ∷ ns) ≡ some w
    → (w' : Bytes) × (write_names ns ≡ some w') × (w ≡ (n << w'))
unfolding write_names
write_names-cons n ns w h = elim (Bool-cases (is_some (find n alljoyn_xmpp_suffix 0))) [
  | inl e ↦ ground (arith, (rw e at h))
  | inr e ↦ let (w', e1, e2) = bind-some _ _ w (rw e at h) in (w', e1, sym (some-inj e2))
]

parse_names :
    (path : Bytes) (acc names : List Bytes) (m : Map Bytes (List Bytes)) (w s : Bytes)
    → path ≢ []
    → All IsName names
    → write_names names ≡ some w
    → parse_descriptions path acc m (istringstream (w ++ s))
      ≡ parse_descriptions path (acc ++ names) m (istringstream s)
parse_names path acc [] m w s hp _ h = unfold write_names in rw (sym (some-inj h), append-nil) refl
parse_names path acc (n ∷ ns) m w s hp (hn, hns) h =
    let (w', e, e') = write_names-cons n ns w h in
    ap (λ x. parse_descriptions path acc m (istringstream x))
      (ap (λ x. x ++ s) e' ∙ append-line n w' s)
    ∙ ap (parse_descriptions path acc m) (istringstream-line n (w' ++ s) hn.line.one_line)
    ∙ parse_name path n acc m (istringstream (w' ++ s)) hp hn
    ∙ parse_names path (acc ++ n ∷ []) ns m w' s hp hns e
    ∙ ap (λ x. parse_descriptions path x m (istringstream s)) (append_assoc acc (n ∷ []) ns)

write_descriptions-cons :
    (path : Bytes) (names : List Bytes) (ds : Map Bytes (List Bytes)) (t : Bytes)
    → write_descriptions ((path, names) ∷ ds) ≡ some t
    → (w : Bytes) × (r : Bytes) × (write_names names ≡ some w)
      × (write_descriptions ds ≡ some r)
      × (t ≡ (path << (w ++ r)))
unfolding write_descriptions
write_descriptions-cons path names ds t h =
    let (w, e1, h1) = bind-some _ _ t h in
    let (r, e2, h2) = bind-some _ _ t h1 in (w, r, e1, e2, sym (some-inj h2))

-- Inside the descriptions: the object at hand, and those that follow.
parse_following :
    (path : Bytes) (names : List Bytes) (m ds : Map Bytes (List Bytes)) (t s : Bytes)
    → path ≢ []
    → All IsDescription ds
    → write_descriptions ds ≡ some t
    → parse_descriptions path names m (istringstream (t ++ ([] << s)))
      ≡ (collect (insert path names m) ds, istringstream s)
parse_following path names m [] t s hp _ h =
    unfold write_descriptions parse_descriptions in
    ap (λ x. parse_descriptions path names m (istringstream (x ++ ([] << s)))) (sym (some-inj h))
    ∙ ap (parse_descriptions path names m) (istringstream-line [] s _)
parse_following path names m ((p, ns) ∷ ds) t s hp (hd, hds) h =
    let (w, r, e1, e2, e) = write_descriptions-cons p ns ds t h in
    ap (λ x. parse_descriptions path names m (istringstream x))
      (ap (λ x. x ++ ([] << s)) e
        ∙ append-line p (w ++ r) ([] << s)
        ∙ ap (λ x. p << x) (append_assoc w r ([] << s)))
    ∙ ap (parse_descriptions path names m)
        (istringstream-line p (w ++ (r ++ ([] << s))) hd.path_line.one_line)
    ∙ parse_path path p names m (istringstream (w ++ (r ++ ([] << s)))) hp hd.path_line.some_text
        hd.path_start
    ∙ parse_names p [] ns (insert path names m) w (r ++ ([] << s)) hd.path_line.some_text
        hd.names_ok e1
    ∙ parse_following p ns (insert path names m) ds r s hd.path_line.some_text hds e2

-- The map that is parsed: where no object is described, the empty line still leaves an entry for
-- the empty path.
abbrev pub received_descs : Map Bytes (List Bytes) → Map Bytes (List Bytes)
received_descs [] = insert [] [] []
received_descs (d ∷ ds) = collect [] (d ∷ ds)

pub parse-write_descriptions :
    (ds : Map Bytes (List Bytes)) (t s : Bytes)
    → All IsDescription ds
    → write_descriptions ds ≡ some t
    → parse_descriptions [] [] [] (istringstream (t ++ ([] << s)))
      ≡ (received_descs ds, istringstream s)
parse-write_descriptions [] t s _ h =
    unfold write_descriptions parse_descriptions in
    ap (λ x. parse_descriptions [] [] [] (istringstream (x ++ ([] << s)))) (sym (some-inj h))
    ∙ ap (parse_descriptions [] [] []) (istringstream-line [] s _)
parse-write_descriptions ((p, ns) ∷ ds) t s (hd, hds) h =
    let (w, r, e1, e2, e) = write_descriptions-cons p ns ds t h in
    ap (λ x. parse_descriptions [] [] [] (istringstream x))
      (ap (λ x. x ++ ([] << s)) e
        ∙ append-line p (w ++ r) ([] << s)
        ∙ ap (λ x. p << x) (append_assoc w r ([] << s)))
    ∙ ap (parse_descriptions [] [] [])
        (istringstream-line p (w ++ (r ++ ([] << s))) hd.path_line.one_line)
    ∙ parse_first p [] (istringstream (w ++ (r ++ ([] << s)))) hd.path_line.some_text
    ∙ parse_names p [] ns [] w (r ++ ([] << s)) hd.path_line.some_text hd.names_ok e1
    ∙ parse_following p ns [] ds r s hd.path_line.some_text hds e2

lookup-collect :
    (q : Bytes) (m ds : Map Bytes (List Bytes))
    → HasKeysOnce ds
    → lookup q (collect m ds) ≡ (if is_some (lookup q ds) then lookup q ds else lookup q m)
unfolding lookup
lookup-collect q m [] h = refl
lookup-collect q m ((p, ns) ∷ ds) (once, h) = elim (Bool-cases (bytes_eq p q)) [
  | inl e ↦ ground (
    arith,
    e,
    lookup-collect q (insert p ns m) ds h,
    lookup-insert p q ns m,
    subst (λ x. lookup x ds ≡ none) ((bytes_eq_iff p q).0 e) once,
  )
  | inr e ↦ ground (arith, e, lookup-collect q (insert p ns m) ds h, lookup-insert p q ns m)
]

-- What the parsed map lists is what was described.
pub listed-received_descs :
    (ds : Map Bytes (List Bytes)) (path name : Bytes)
    → HasKeysOnce ds
    → listed (received_descs ds) path name ≡ listed ds path name
listed-received_descs [] path name h = unfold lookup insert in ground arith
listed-received_descs (d ∷ ds) path name h =
    ap (λ o. has_name name (get_or o []))
      (lookup-collect path [] (d ∷ ds) h ∙ whole (lookup path (d ∷ ds)))
  where
    whole : (o : Option (List Bytes)) → (if is_some o then o else lookup path []) ≡ o
    whole none = unfold lookup in refl
    whole (some ns) = refl
