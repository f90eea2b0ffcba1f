-- ===== src/Server/Http.antt =====
-- Requests of the web server, request.c of "sever_client_system": the file that a URI names, the
-- type of its contents and the reply to a request line. A string is the list of its bytes.
use Prim.Native.Char.{code}
use Prim.Native.String.{String}
use operation_system_project.Prelude.{
  ℕ, ◌-◌, ◌≡◌, ◌≢◌, refl, Bool, true, false, not, ◌||◌, ◌&&◌, List, [], ◌∷◌, ◌++◌, Option, none,
  some, All, leb, ◌==◌, if◌then◌else◌, arith,
}

abbrev pub codes : String → List ℕ
codes String.[] = []
codes (String.◌∷◌ c s) = code c ∷ codes s

-- Whether a string begins with another.
unfoldable pub begins : (s p : List ℕ) → Bool
begins s [] = true
begins [] (c ∷ p) = false
begins (a ∷ s) (c ∷ p) = a == c && begins s p

-- Whether `strstr(s, p)` is not null.
unfoldable pub strstr : (s p : List ℕ) → Bool
unfolding begins
strstr [] p = begins [] p
strstr (a ∷ s) p = begins (a ∷ s) p || strstr s p

-- Whether `uri[strlen(uri)-1] == '/'`; an empty URI does not end so.
unfoldable pub ends_in_slash : List ℕ → Bool
ends_in_slash [] = false
ends_in_slash (c ∷ []) = c == 47
ends_in_slash (c ∷ d ∷ s) = ends_in_slash (d ∷ s)

-- The string up to the first byte `c`, and what follows it, if there is one, as `index` finds it.
unfoldable pub split_at : ℕ → List ℕ → List ℕ × Option (List ℕ)
split_at c [] = ([], none)
split_at c (a ∷ s) =
    let (before, behind) = split_at c s in if a == c then ([], some s) else (a ∷ before, behind)

-- `requestParseURI`: what it returns, and the two strings.
pub record Target : Type 0 where
  pub is_static : Bool
  pub filename : List ℕ
  pub cgiargs : List ℕ

unfoldable pub dynamic_target : List ℕ × Option (List ℕ) → Target
dynamic_target (path, none) = record { is_static = false; filename = 46 ∷ path; cgiargs = [] }
dynamic_target (path, some args) = record {
  is_static = false;
  filename = 46 ∷ path;
  cgiargs = args;
}

unfoldable pub parse_uri : List ℕ → Target
unfolding strstr ends_in_slash split_at dynamic_target
parse_uri uri =
    if not (strstr uri (codes "cgi"))
    then record {
      is_static = true;
      filename = if ends_in_slash uri then 46 ∷ (uri ++ codes "home.html") else 46 ∷ uri;
      cgiargs = [];
    }
    else dynamic_target (split_at 63 uri)

-- `requestGetFiletype`
unfoldable pub filetype : List ℕ → List ℕ
unfolding strstr
filetype name =
    if strstr name (codes ".html")
    then codes "text/html"
    else (if strstr name (codes ".gif")
        then codes "image/gif"
        else (if strstr name (codes ".jpg") then codes "image/jpeg" else codes "text/plain"))

-- What `stat` tells of a file.
pub record Stat : Type 0 where
  pub regular : Bool
  pub readable : Bool
  pub executable : Bool
  pub size : ℕ

-- The reply: an error with its number, the contents of a file, or the output of a program.
pub data Reply : Type 0 where
  request_error : ℕ → Reply
  serve_static : (filename type : List ℕ) (size : ℕ) → Reply
  serve_dynamic : (filename cgiargs : List ℕ) → Reply

-- `strcasecmp` is 0.
abbrev pub upper : ℕ → ℕ
upper c = if leb 97 c && leb c 122 then c - 32 else c

unfoldable pub same_word : (s t : List ℕ) → Bool
same_word [] [] = true
same_word [] (c ∷ t) = false
same_word (a ∷ s) [] = false
same_word (a ∷ s) (c ∷ t) = upper a == upper c && same_word s t

-- The last tests of `requestHandle`.
unfoldable pub reply_to : Target → Option Stat → Reply
unfolding filetype
reply_to t none = request_error 404
reply_to t (some st) =
    if t.is_static
    then (if not st.regular || not st.readable
        then request_error 403
        else serve_static t.filename (filetype t.filename) st.size)
    else (if not st.regular || not st.executable
        then request_error 403
        else serve_dynamic t.filename t.cgiargs)

-- `requestHandle` for the words of the request line; `stat` is the system call.
unfoldable pub handle : (stat : List ℕ → Option Stat) (method uri : List ℕ) → Reply
unfolding same_word parse_uri reply_to
handle stat method uri =
    if not (same_word method (codes "GET"))
    then request_error 501
    else reply_to (parse_uri uri) (stat (parse_uri uri).filename)

abbrev IsQuery : ℕ → Type 0
IsQuery c = c ≢ 63

split_at-append :
    (path args : List ℕ) → All IsQuery path → split_at 63 (path ++ (63 ∷ args)) ≡ (path, some args)
unfolding split_at
split_at-append [] args h = refl
split_at-append (c ∷ path) args h =
    let ih = split_at-append path args h.1 in let other = h.0 in ground arith

begins-append : (s p t : List ℕ) → begins s p ≡ true → begins (s ++ t) p ≡ true
unfolding begins
begins-append [] [] t h = refl
begins-append [] (c ∷ p) t h = cc
begins-append (a ∷ s) [] t h = refl
begins-append (a ∷ s) (c ∷ p) t h = ground (arith, begins-append s p t)

strstr-append : (s p t : List ℕ) → strstr s p ≡ true → strstr (s ++ t) p ≡ true
unfolding strstr
strstr-append [] [] [] h = refl
strstr-append [] [] (a ∷ t) h = refl
strstr-append [] (c ∷ p) t h = cc
strstr-append (a ∷ s) p t h = ground (arith, strstr-append s p t, begins-append (a ∷ s) p t)

-- The URI of a program with its arguments: what stands before the first question mark names the
-- program, below the server's directory, and what follows are the arguments.
pub parse_uri-append :
    (path args : List ℕ)
    → strstr path (codes "cgi") ≡ true
    → All IsQuery path
    → parse_uri (path ++ (63 ∷ args))
      ≡ record { is_static = false; filename = 46 ∷ path; cgiargs = args }
unfolding parse_uri dynamic_target
parse_uri-append path args h q =
    rw (strstr-append path (codes "cgi") (63 ∷ args) h, split_at-append path args q)
