-- ===== src/Framework/Context/Access.antt =====
-- framework/context.go: the accessors, cookies and MustGet. Cookies are net/http's: how a header is
-- read and how a cookie is written are parameters.
use quicframe.Prelude.{
  ◌≡◌, refl, Bool, true, false, List, [], ◌∷◌, ◌++◌, Option, none, some, Result, err, GoError, ap,
  ◌∙◌, if◌then◌else◌, Bool-cases, inl, inr,
}
use quicframe.Prelude.Text.{Text, Bytes, codes, is_empty, text_eq, text_eq_self}
use quicframe.Prelude.Dict
use quicframe.Protocol.Types.{Value}
use quicframe.Framework.Context.{Context, Peer, Certificate, get_header, header, get, set}

unfoldable pub query_params : Context → List (Text × List Text)
query_params c = c.query_params

unfoldable pub method : Context → Text
method c = c.request.method

unfoldable pub path : Context → Text
path c = c.request.path

unfoldable pub request_id : Context → Text
request_id c = c.request.id

unfoldable pub body : Context → Bytes
body c = c.request.body

unfoldable pub remote_addr : Context → Option Text
remote_addr c = c.conn.remote_addr

unfoldable pub peer_certificates : Context → List Certificate
peer_certificates c = c.conn.peer_certificates

-- `Client()` for a client made from a connection: nil for WebTransport.
unfoldable pub client : {C : Type 0} → (Peer → C) → Context → Option C
client from_conn c = if c.conn.is_native then some (from_conn c.conn) else none

-- What MustGet does: it returns a value or panics.
pub data Got : Type 0 where
  value : Value → Got
  panicked : Text → Got

-- `quote` is the verb %q.
got : (Text → Text) → Text → Option Value → Got
got quote key (some v) = value v
got quote key none =
    panicked (codes "quicframe: MustGet: key " ++ (quote key ++ codes " not found in locals"))

unfoldable pub must_get : (Text → Text) → Text → Context → Got
unfolding got
must_get quote key c = got quote key (get key c)

-- `read` is what http.Request.Cookie finds in a Cookie header, `no_cookie` is http.ErrNoCookie.
unfoldable pub cookie :
    {C : Type 0} → (Text → Text → Result C) → GoError → Text → Context → Result C
cookie read no_cookie name c =
    if is_empty (get_header (codes "Cookie") c)
    then err no_cookie
    else read (get_header (codes "Cookie") c) name

-- `text` is `cookie.String()`.
unfoldable pub set_cookie : Text → Context → Context
set_cookie text c = if is_empty text then c else header (codes "Set-Cookie") text c

-- MustGet returns what the last Set of the key stored, and panics for a key that was never set;
-- a Set of one key makes no difference to another.
pub must_get-set :
    (quote : Text → Text) (key j : Text) (v : Value) (c : Context)
    → must_get quote j (set key v c) ≡ (if text_eq key j then value v else must_get quote j c)
unfolding must_get get set got
must_get-set quote key j v c =
    ap (got quote j) (Dict.lookup-insert key j v c.locals) ∙ got_if (text_eq key j)
  where
    got_if :
        (b : Bool)
        → got quote j (if b then some v else Dict.lookup j c.locals)
          ≡ (if b then value v else got quote j (Dict.lookup j c.locals))
    got_if true = refl
    got_if false = refl

insert-insert :
    {V : Type 0} (k : Text) (v u : V) (m : List (Text × V))
    → Dict.insert k v (Dict.insert k u m) ≡ Dict.insert k v m
unfolding Dict.insert
insert-insert k v u [] = rw (text_eq_self k)
insert-insert k v u ((j, w) ∷ m) = elim (Bool-cases (text_eq j k)) [
  | inl e ↦ rw (e, text_eq_self k)
  | inr e ↦ rw (e, e) (ap (λ l. (j, w) ∷ l) (insert-insert k v u m))
]

-- Of two cookies that are set one after the other only the second is kept: the response is the one
-- that it would be without the first. Both cookies are valid, so that they have a text.
pub set_cookie-set_cookie :
    (a b : Text) (c : Context) → is_empty b ≡ false → set_cookie b (set_cookie a c) ≡ set_cookie b c
unfolding set_cookie header
set_cookie-set_cookie a b c valid = elim (Bool-cases (is_empty a)) [
  | inl e ↦ rw e
  | inr e ↦
      rw (e, valid)
        (ap (λ h. record c { res_headers = h })
          (insert-insert (codes "Set-Cookie") b a c.res_headers))
]
