-- ===== src/Wire/Objects/RoundTrip.antt =====
-- What the peer parses of the bus objects that were written.
use xmppconn.Base.{
  Bool, false, ◌||◌, Option, none, some, bytes_eq, bytes_eq_iff, get_or, lookup, List, [], ◌∷◌,
  ◌++◌, Bytes, newline, bytes_key, Map, ◌≡◌, ◌≢◌, refl, ap, sym, ◌∙◌, arith, All, Lacks, map,
  append_assoc, append-nil,
}
use xmppconn.Wire.{Stream, write_lines, ◌<<◌, istringstream, istringstream-line}
use xmppconn.Wire.Objects.{
  InterfaceDescription, BusObjectInfo, InterfaceData, RemoteObjectDescription, write_interfaces,
  write_objects, is_announced, mem, announced_in, ParseState, parse_start, parse_line, parse_lines,
  parse_bus_object_info,
}

-- One line of a text: not empty, and without a newline.
pub record IsLine (l : Bytes) : Type 0 where
  pub some_text : l ≢ []
  pub one_line : Lacks newline l

-- What AllJoyn's `Introspect` returns: one or more lines, none of them empty, each ended.
pub record IsIntrospection (s : Bytes) : Type 0 where
  pub first : Bytes
  pub more : List Bytes
  pub lines_ok : All IsLine (first ∷ more)
  pub text : s ≡ write_lines (first ∷ more)

pub record IsWritable (i : InterfaceDescription) : Type 0 where
  pub name_ok : IsLine i.name
  pub text_ok : IsIntrospection i.introspect

pub record IsObject (o : BusObjectInfo) : Type 0 where
  pub path_ok : IsLine o.path
  pub interfaces_ok : All IsWritable o.interfaces

abbrev pub has_name : Bytes → List Bytes → Bool
has_name name [] = false
has_name name (n ∷ ns) = bytes_eq name n || has_name name ns

-- An announcement lists an interface for the object of a path.
abbrev pub listed : Map Bytes (List Bytes) → Bytes → Bytes → Bool
listed m path name = has_name name (get_or (lookup path m) [])

mem-has_name : (name : Bytes) (ns : List Bytes) → mem name ns ≡ has_name name ns
unfolding mem
mem-has_name name [] = refl
mem-has_name name (n ∷ ns) =
    ground (arith, mem-has_name name ns, bytes_eq_iff n name, bytes_eq_iff name n)

announced_in-has_name :
    (o : Option (List Bytes)) (name : Bytes) → announced_in o name ≡ has_name name (get_or o [])
unfolding announced_in
announced_in-has_name none name = refl
announced_in-has_name (some names) name = mem-has_name name names

is_announced-listed :
    (m : Map Bytes (List Bytes)) (path name : Bytes) → is_announced m path name ≡ listed m path name
unfolding is_announced
is_announced-listed m path name = announced_in-has_name (lookup path m) name

-- What arrives of an interface and of an object.
abbrev pub received_interface :
    Map Bytes (List Bytes) → Bytes → InterfaceDescription → InterfaceData
received_interface m path i = record {
  name = i.name;
  data_text = i.introspect;
  announced = listed m path i.name;
}

abbrev pub received_object : Map Bytes (List Bytes) → BusObjectInfo → RemoteObjectDescription
received_object m o = record {
  path = o.path;
  interfaces = map (received_interface m o.path) o.interfaces;
}

pub istringstream-lines :
    (ls : List Bytes) (s : Bytes)
    → All IsLine ls
    → istringstream (write_lines ls ++ s) ≡ ls ++ istringstream s
istringstream-lines [] s _ = refl
istringstream-lines (l ∷ ls) s (hl, hls) = rw append_assoc (
    istringstream-line l (write_lines ls ++ s) hl.one_line
    ∙ ap (◌∷◌ l) (istringstream-lines ls s hls))

pub append-line : (l x s : Bytes) → (l << x) ++ s ≡ l << (x ++ s)
append-line l x s = append_assoc l (newline ∷ x) s

module _ (m : Map Bytes (List Bytes)) where
  parse_line-text :
      (p : ParseState) (l : Bytes)
      → p.path ≢ []
      → p.interface_name ≢ []
      → l ≢ []
      → parse_line m p l ≡ record p { description = p.description ++ (l << []) }
  unfolding parse_line
  parse_line-text p l hp hn hl = ground arith

  -- Inside an interface: its lines are appended to the description.
  inside :
      (p : ParseState) (ls : List Bytes) (rest : Stream)
      → p.path ≢ []
      → p.interface_name ≢ []
      → All IsLine ls
      → parse_lines m p (ls ++ rest)
        ≡ parse_lines m (record p { description = p.description ++ write_lines ls }) rest
  unfolding parse_lines
  inside p [] rest hp hn _ = rw append-nil refl
  inside p (l ∷ ls) rest hp hn (hl, hls) =
      ap (λ x. parse_lines m x (ls ++ rest)) (parse_line-text p l hp hn hl.some_text)
      ∙ inside (record p { description = p.description ++ (l << []) }) ls rest hp hn hls
      ∙ ap (λ d. parse_lines m (record p { description = d }) rest)
          (append_assoc p.description (l ++ newline ∷ []) (write_lines ls)
            ∙ ap (λ d. p.description ++ d) (append_assoc l (newline ∷ []) (write_lines ls)))

  -- The state between two interfaces of an object.
  abbrev between : List RemoteObjectDescription → Bytes → List InterfaceData → ParseState
  between results path interfaces = record {
    results = results;
    path = path;
    interfaces = interfaces;
    interface_name = [];
    description = [];
  }

  named :
      (r : List RemoteObjectDescription) (q : Bytes) (is : List InterfaceData) (name : Bytes)
      → q ≢ []
      → name ≢ []
      → parse_line m (between r q is) name ≡ record (between r q is) { interface_name = name }
  unfolding parse_line
  named r q is name hq hn = ground arith

  ended_as :
      (r : List RemoteObjectDescription) (q : Bytes) (is : List InterfaceData) (name text : Bytes)
      → text ≢ []
      → parse_line m (record (between r q is) { interface_name = name; description = text }) []
        ≡ between r q
            (is ++ record { name = name; data_text = text; announced = is_announced m q name } ∷ [])
  unfolding parse_line
  ended_as r q is name text h = ground arith

  ended :
      (r : List RemoteObjectDescription) (q : Bytes) (is : List InterfaceData) (name text : Bytes)
      → text ≢ []
      → parse_line m (record (between r q is) { interface_name = name; description = text }) []
        ≡ between r q
            (is ++ record { name = name; data_text = text; announced = listed m q name } ∷ [])
  ended r q is name text h =
      ended_as r q is name text h
      ∙ ap (λ b. between r q (is ++ record { name = name; data_text = text; announced = b } ∷ []))
          (is_announced-listed m q name)

  -- The lines of one interface.
  interface_lines :
      (i : InterfaceDescription) (s : Bytes) (h : IsWritable i)
      → istringstream (i.name << i.introspect << s)
        ≡ i.name ∷ (h.text_ok.first ∷ h.text_ok.more) ++ [] ∷ istringstream s
  interface_lines i s h =
      istringstream-line i.name (i.introspect << s) h.name_ok.one_line
      ∙ ap (λ x. i.name ∷ istringstream (x << s)) h.text_ok.text
      ∙ ap (◌∷◌ i.name) (
          istringstream-lines (h.text_ok.first ∷ h.text_ok.more) (newline ∷ s) h.text_ok.lines_ok
          ∙ ap (λ x. (h.text_ok.first ∷ h.text_ok.more) ++ x) (istringstream-line [] s _))

  parse_interface_lines :
      (r : List RemoteObjectDescription) (q : Bytes) (is : List InterfaceData) (name : Bytes)
      (l : Bytes) (ls : List Bytes) (rest : Stream)
      → q ≢ []
      → name ≢ []
      → All IsLine (l ∷ ls)
      → parse_lines m (between r q is) (name ∷ (l ∷ ls) ++ [] ∷ rest)
        ≡ parse_lines m
            (between r q (
              is
              ++ record {
                name = name;
                data_text = write_lines (l ∷ ls);
                announced = listed m q name;
              }
                ∷ []))
            rest
  unfolding parse_lines
  parse_interface_lines r q is name l ls rest hq hn hls =
      ap (λ x. parse_lines m x ((l ∷ ls) ++ [] ∷ rest)) (named r q is name hq hn)
      ∙ inside (record (between r q is) { interface_name = name }) (l ∷ ls) ([] ∷ rest) hq hn hls
      ∙ ap (λ x. parse_lines m x rest)
          (ended r q is name (write_lines (l ∷ ls)) (λ e. ground (arith, e)))

  one_interface :
      (r : List RemoteObjectDescription) (q : Bytes) (is : List InterfaceData)
      (i : InterfaceDescription) (s : Bytes)
      → q ≢ []
      → IsWritable i
      → parse_lines m (between r q is) (istringstream (i.name << i.introspect << s))
        ≡ parse_lines m (between r q (is ++ received_interface m q i ∷ [])) (istringstream s)
  one_interface r q is i s hq h =
      ap (parse_lines m (between r q is)) (interface_lines i s h)
      ∙ parse_interface_lines r q is i.name h.text_ok.first h.text_ok.more (istringstream s) hq
          h.name_ok.some_text h.text_ok.lines_ok
      ∙ ap
          (λ x.
            parse_lines m
              (between r q
                (is ++ record { name = i.name; data_text = x; announced = listed m q i.name } ∷ []))
              (istringstream s))
          (sym h.text_ok.text)

  parse_interfaces :
      (r : List RemoteObjectDescription) (q : Bytes) (is : List InterfaceData)
      (ds : List InterfaceDescription) (s : Bytes)
      → q ≢ []
      → All IsWritable ds
      → parse_lines m (between r q is) (istringstream (write_interfaces ds ++ s))
        ≡ parse_lines m (between r q (is ++ map (received_interface m q) ds)) (istringstream s)
  unfolding write_interfaces
  parse_interfaces r q is [] s hq _ =
      ap (λ x. parse_lines m (between r q x) (istringstream s)) (sym (append-nil is))
  parse_interfaces r q is (d ∷ ds) s hq (hd, hds) =
      ap (λ x. parse_lines m (between r q is) (istringstream x))
        (append-line d.name (d.introspect << write_interfaces ds) s
          ∙ ap (λ x. d.name << x) (append-line d.introspect (write_interfaces ds) s))
      ∙ one_interface r q is d (write_interfaces ds ++ s) hq hd
      ∙ parse_interfaces r q (is ++ received_interface m q d ∷ []) ds s hq hds
      ∙ ap (λ x. parse_lines m (between r q x) (istringstream s))
          (append_assoc is (received_interface m q d ∷ []) (map (received_interface m q) ds))

  opened :
      (r : List RemoteObjectDescription) (q : Bytes)
      → q ≢ []
      → parse_line m (between r [] []) q ≡ between r q []
  unfolding parse_line
  opened r q hq = ground arith

  closed :
      (r : List RemoteObjectDescription) (q : Bytes) (is : List InterfaceData)
      → parse_line m (between r q is) []
        ≡ between (r ++ record { path = q; interfaces = is } ∷ []) [] []
  unfolding parse_line
  closed r q is = ground arith

  parse_lines-cons :
      (p : ParseState) (l s : Bytes)
      → Lacks newline l
      → parse_lines m p (istringstream (l << s))
        ≡ parse_lines m (parse_line m p l) (istringstream s)
  unfolding parse_lines
  parse_lines-cons p l s h = ap (parse_lines m p) (istringstream-line l s h)

  one_object :
      (r : List RemoteObjectDescription) (o : BusObjectInfo) (s : Bytes)
      → IsObject o
      → parse_lines m
          (between r [] [])
          (istringstream (o.path << (write_interfaces o.interfaces ++ ([] << s))))
        ≡ parse_lines m (between (r ++ received_object m o ∷ []) [] []) (istringstream s)
  one_object r o s h =
      parse_lines-cons (between r [] []) o.path (write_interfaces o.interfaces ++ ([] << s))
        h.path_ok.one_line
      ∙ ap (λ x. parse_lines m x (istringstream (write_interfaces o.interfaces ++ ([] << s))))
          (opened r o.path h.path_ok.some_text)
      ∙ parse_interfaces r o.path [] o.interfaces ([] << s) h.path_ok.some_text h.interfaces_ok
      ∙ parse_lines-cons _ [] s _
      ∙ ap (λ x. parse_lines m x (istringstream s))
          (closed r o.path (map (received_interface m o.path) o.interfaces))

  parse_objects :
      (r : List RemoteObjectDescription) (os : List BusObjectInfo)
      → All IsObject os
      → (parse_lines m (between r [] []) (istringstream (write_objects os))).results
        ≡ r ++ map (received_object m) os
  unfolding write_objects
  parse_objects r [] _ = unfold istringstream parse_lines in sym (append-nil r)
  parse_objects r (o ∷ os) (ho, hos) =
      ap (λ x. x.results) (one_object r o (write_objects os) ho)
      ∙ parse_objects (r ++ received_object m o ∷ []) os hos
      ∙ append_assoc r (received_object m o ∷ []) (map (received_object m) os)

  -- Bus objects whose paths and interface names are lines and not empty, and whose introspection texts
  -- are lines of which none is empty, are parsed as
  -- they were written: the same paths, names and texts in the same order, with the interfaces
  -- marked that the announcement lists for their object.
  pub parse-write_objects :
      (os : List BusObjectInfo)
      → All IsObject os
      → parse_bus_object_info (istringstream (write_objects os)) m ≡ map (received_object m) os
  unfolding parse_bus_object_info parse_start
  parse-write_objects os h = parse_objects [] os h
