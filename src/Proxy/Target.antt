-- ===== src/Proxy/Target.antt =====
-- Which host and port the URL of a request stands for.
use libsimulator.Base.{
  ℕ, Bool, true, none, ◌≢◌, leb, ltb, ◌&&◌, ==_iff, ==_self, if_rule, if◌then◌else◌, subst, sym,
  ap₂, zero, suc, ◌≡◌, ◌<◌, ◌+◌, ◌-◌, refl, ap, ◌∙◌, false, [], ◌∷◌, ◌++◌, append_assoc, some,
  arith, ◌==◌, length, take, drop, length-append, All-append,
}
use libsimulator.Http.{Text, slash, to_string}
use libsimulator.Http.Range.{digits-Digits, number_from-digits, digits-starts}
use libsimulator.Proxy.Url.{
  Destination, last_is, codes, number_from, atoi, strip_brackets, checked_port, path_start,
  authority, host_end, path_at, host_at, port_text, port_at, target_of,
}
use libsimulator.Proxy.Digits.{
  Without, Digits, first_of-append, last_of-append, take-append, drop-append, drop_behind,
  Digits-Without, Ends, atoi-Digits,
}

slash-Ends : (k : ℕ) (path : Text) → Ends (take k (slash ∷ path))
unfolding number_from
slash-Ends zero path = λ n. refl
slash-Ends (suc k) path = λ n. refl

take_beyond : (n k : ℕ) (a b : Text) → n ≡ length a + k → take n (a ++ b) ≡ a ++ take k b
take_beyond n k [] b h = let e : n ≡ k = omega (arith, h) in ap (λ m. take m b) e
take_beyond zero k (x ∷ a) b h = ground arith
take_beyond (suc n) k (x ∷ a) b h = ap (x ∷◌) (take_beyond n k a b (omega (arith, h)))

-- A URL with a port: the parts of the theorem below.
module _ (host : Text) (d : ℕ) (ds path : Text) where
  abbrev front : Text
  front = codes "http://" ++ (host ++ 58 ∷ (d ∷ ds))

  abbrev whole : Text
  whole = front ++ slash ∷ path

  path_start-whole : Without slash (host ++ 58 ∷ (d ∷ ds)) → path_start whole ≡ some (length front)
  unfolding path_start codes
  path_start-whole w = ground (arith, first_of-append slash (host ++ 58 ∷ (d ∷ ds)) path w)

  host_end-front :
      Without 58 (d ∷ ds)
      → 0 < length host
      → host_end front ≡ some (length (codes "http://" ++ host))
  unfolding host_end codes
  host_end-front w h = ground (arith, last_of-append 58 (codes "http://" ++ host) (d ∷ ds) w, h)

  abbrev before : ℕ
  before = length (codes "http://" ++ host)

  host_at-whole : host_at whole (some (length front)) (some before) ≡ host
  unfolding host_at codes
  host_at-whole =
      let e : before - 7 ≡ length host = omega arith in
      ap (λ n. take n (drop 7 whole)) e
      ∙ ap (take (length host)) (append_assoc host (58 ∷ (d ∷ ds)) (slash ∷ path))
      ∙ take-append host (58 ∷ (d ∷ ds) ++ slash ∷ path)

  -- What follows the colon.
  drop-whole : drop (suc before) whole ≡ (d ∷ ds) ++ slash ∷ path
  unfolding codes
  drop-whole =
      ap (drop (suc (length host))) (append_assoc host (58 ∷ (d ∷ ds)) (slash ∷ path))
      ∙ drop_behind host 58 ((d ∷ ds) ++ slash ∷ path)

  port_at-whole :
      Digits (d ∷ ds)
      → port_at whole (some (length front)) (some before)
        ≡ checked_port (some (number_from 0 (d ∷ ds)))
  unfolding port_at port_text codes
  port_at-whole w =
      let k = length front - length (d ∷ ds) in
      ap (λ t. checked_port (atoi t))
        (ap (take (length front)) drop-whole
          ∙ take_beyond (length front) k (d ∷ ds) (slash ∷ path)
              (omega (arith, length-append host (58 ∷ (d ∷ ds)))))
      ∙ ap checked_port (atoi-Digits d ds (take k (slash ∷ path)) w (slash-Ends k path))

  path_at-whole : path_at whole (some (length front)) ≡ slash ∷ path
  unfolding path_at
  path_at-whole = drop-append front (slash ∷ path)

  authority-whole : authority whole (some (length front)) ≡ front
  unfolding authority
  authority-whole = take-append front (slash ∷ path)

parts_of-port :
    (host : Text) (d : ℕ) (ds path : Text)
    → Without slash host
    → 0 < length host
    → Digits (d ∷ ds)
    → target_of ((codes "http://" ++ (host ++ 58 ∷ (d ∷ ds))) ++ slash ∷ path) ≡ record {
      path = slash ∷ path;
      host = strip_brackets host;
      port = checked_port (some (number_from 0 (d ∷ ds)));
    }
unfolding target_of
parts_of-port host d ds path s l w =
    let start = path_start-whole host d ds path (
      All-append (λ x. (x == slash) ≡ false) host (58 ∷ (d ∷ ds)) s
        (refl, Digits-Without slash (d ∷ ds) refl w)) in
    let end = host_end-front host d ds path (Digits-Without 58 (d ∷ ds) refl w) l in
    rw (start, authority-whole host d ds path, end)
      (λ i. record {
        path = path_at-whole host d ds path i;
        host = strip_brackets (host_at-whole host d ds path i);
        port = port_at-whole host d ds path w i;
      })

-- The host that is meant: what stands between brackets, and otherwise all of the text.
pub data HostOf : Text → Text → Type 0 where
  bracketed : (inner : Text) → HostOf (91 ∷ (inner ++ 93 ∷ [])) inner
  plain : (host : Text) → ((inner : Text) → host ≢ (91 ∷ (inner ++ 93 ∷ []))) → HostOf host host

last_is-init :
    (c x : ℕ) (xs : Text) → last_is c (x ∷ xs) ≡ true → (init : Text) × (x ∷ xs ≡ init ++ c ∷ [])
unfolding last_is
last_is-init c x [] e = ([], ap (λ k. k ∷ []) ((==_iff x c).0 e))
last_is-init c x (y ∷ xs) e = let (init, q) = last_is-init c y xs e in (x ∷ init, ap (x ∷◌) q)

last_is-append : (c x : ℕ) (xs : Text) → last_is c (x ∷ (xs ++ c ∷ [])) ≡ true
unfolding last_is
last_is-append c x [] = ==_self c
last_is-append c x (y ∷ xs) = last_is-append c y xs

abbrev in_brackets : ℕ → Text → Bool
in_brackets c cs = leb 2 (suc (length cs)) && (c == 91 && last_is 93 (c ∷ cs))

in_brackets-true : (inner : Text) → in_brackets 91 (inner ++ 93 ∷ []) ≡ true
in_brackets-true inner = ground (arith, length-append inner (93 ∷ []), last_is-append 93 91 inner)

strip_brackets-HostOf : (host : Text) → HostOf host (strip_brackets host)
unfolding strip_brackets last_is
strip_brackets-HostOf [] = plain [] (λ inner e. ground arith)
strip_brackets-HostOf (c ∷ []) =
    plain (c ∷ []) (λ inner e. absurd (omega (arith, ap length e, length-append inner (93 ∷ []))))
strip_brackets-HostOf (c ∷ y ∷ ys) =
    if_rule (HostOf (c ∷ y ∷ ys)) (in_brackets c (y ∷ ys))
      (λ t.
        let (init, e) = last_is-init 93 y ys (ground (arith, t)) in
        let first : c ≡ 91 = ground (arith, t) in
        let inner : take (length (c ∷ y ∷ ys) - 2) (y ∷ ys) ≡ init =
          ap (λ n. take n (y ∷ ys)) (omega (arith, ap length e, length-append init (93 ∷ [])))
          ∙ ap (take (length init)) e
          ∙ take-append init (93 ∷ []) in
        subst (λ h. HostOf h (take (length (c ∷ y ∷ ys) - 2) (y ∷ ys)))
          (sym (ap₂ (λ a b. a ∷ b) first e))
          (subst (λ h. HostOf (91 ∷ (init ++ 93 ∷ [])) h) (sym inner) (bracketed init)))
      (λ f. plain (c ∷ y ∷ ys) (λ inner e.
        let t = subst (λ h. test h ≡ true) (sym e) (in_brackets-true inner) in
        ground (arith, t, f)))
  where
    test : Text → Bool
    test [] = false
    test (x ∷ xs) = in_brackets x xs

-- The URL "http://host:port/path", with a host that has no slash and is not empty and a port written as a decimal
-- number, leads to that path; to that host, without the brackets around it if it is in brackets, so that
-- it may hold colons; and to that port, unless it is 65535 or more, which fails the assertion.
pub target_of-port :
    (host path : Text) (port : ℕ)
    → Without slash host
    → 0 < length host
    → let t = target_of ((codes "http://" ++ (host ++ 58 ∷ to_string port)) ++ slash ∷ path) in
      (t.path ≡ slash ∷ path)
      × HostOf host t.host
      × (t.port ≡ (if ltb port 65535 then some port else none))
target_of-port host path port s l =
    let (d, ds, e) = digits-starts port port in
    let value : number_from 0 (d ∷ ds) ≡ port =
      subst (λ t. number_from 0 t ≡ port) e (number_from-digits (suc port) port (omega arith)) in
    let parts =
      ap (λ t. target_of ((codes "http://" ++ (host ++ 58 ∷ t)) ++ slash ∷ path)) e
      ∙ parts_of-port host d ds path s l (subst Digits e (digits-Digits (suc port) port)) in
    (
      ap (λ (x : Destination). x.path) parts,
      subst (HostOf host) (sym (ap (λ (x : Destination). x.host) parts))
          (strip_brackets-HostOf host),
      ap (λ (x : Destination). x.port) parts ∙ ap (λ n. checked_port (some n)) value,
    )
