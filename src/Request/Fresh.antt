-- ===== src/Request/Fresh.antt =====
-- rd/flask_engine.c: `process_buffer` on the request of a connection that was just initialised.
use p.Prelude.{
  ℕ, ◌<◌, ◌^◌, ◌≡◌, refl, ap, ◌∙◌, sym, false, List, [], ◌∷◌, ◌++◌, some, arith, length,
  append_assoc, append-nil, CString, str_eq,
}
use p.Text.{codes, zeros, c_str, strcpy, strncpy_to, atoi, decimal, digits_value}
use p.Text.Tokens.{
  IsToken, IsText, IsToken-IsWord, IsWord-IsText, strtok-space, strtok-end, strtok-nul,
  strcpy-c_str, strncpy_to-c_str, length-zeros,
}
use p.Text.Decimal.{atoi-decimal, decimal-IsToken, length-decimal}
use p.Tables.{max_buf}
use p.Request.{TcpConnection, copy_path, copy_tokens, process_buffer}

-- `%d %s` with the length of the text and the text, as the web server writes a name and a path.
abbrev pub measured_text : CString → CString
measured_text s = decimal (length s) ++ b' ' ∷ s

abbrev pub named_request : CString → CString → CString
named_request method name = method ++ b' ' ∷ measured_text name

abbrev pub add_request : CString → CString → CString
add_request name path =
    codes "ADDFILE"
    ++ (b' ' ∷ (decimal (length name) ++ (b' ' ∷ (name ++ (b' ' ∷ measured_text path)))))

-- The arrays hold nothing, and the response is empty.
pub record IsFresh (c : TcpConnection) : Type 0 where
  pub method : c.method ≡ zeros max_buf
  pub name_length : c.name_length ≡ zeros max_buf
  pub name : c.name ≡ zeros max_buf
  pub path_length : c.path_length ≡ zeros max_buf
  pub path : c.path ≡ zeros max_buf

-- What the connection holds after the request was processed.
pub record Holds (method name : CString) (c c' : TcpConnection) : Type 0 where
  pub method_is : c_str c'.method ≡ some method
  pub name_is : c_str c'.name ≡ some name
  pub status : c'.status ≡ c.status
  pub response : c'.response ≡ c.response

-- A token that an array of the connection holds.
pub record IsField (s : CString) : Type 0 where
  pub token : IsToken s
  pub fits : length s < max_buf

pub IsField-IsText : (s : CString) → IsField s → IsText s
IsField-IsText s h = IsWord-IsText s (IsToken-IsWord s h.token)

-- The number of a field is read back.
atoi-length : (s : CString) → IsField s → atoi (decimal (length s)) ≡ some (length s)
atoi-length s h =
    ap atoi (sym (append-nil (decimal (length s))))
    ∙ atoi-decimal (length s) [] (omega (arith, h.fits)) (unfold digits_value in refl)

length-IsToken : (s : CString) → IsField s → IsToken (decimal (length s))
length-IsToken s h = decimal-IsToken (length s) (omega (arith, h.fits))

-- Copies into an array of zeros.
copy-text :
    (dst s : List ℕ)
    → dst ≡ zeros max_buf
    → IsText s
    → length s < max_buf
    → (dst' : List ℕ) × (strcpy dst s ≡ some dst') × (c_str dst' ≡ some s)
copy-text dst s e h fits =
    let (d, copied, text, cut) =
      strcpy-c_str dst s h (omega (arith, ap (length {A = ℕ}) e, length-zeros max_buf)) in
    (d, copied, text)

copy-field :
    (dst s : List ℕ)
    → dst ≡ zeros max_buf
    → IsField s
    → (dst' : List ℕ) × (strncpy_to dst s (length s) ≡ some dst') × (c_str dst' ≡ some s)
copy-field dst s e h = rw e (strncpy_to-c_str s max_buf (IsField-IsText s h) h.fits)

copy-length :
    (dst s : List ℕ)
    → dst ≡ zeros max_buf
    → IsField s
    → (dst' : List ℕ) × (strcpy dst (decimal (length s)) ≡ some dst')
      × (c_str dst' ≡ some (decimal (length s)))
copy-length dst s e h =
    let small : length s < 2 ^ 31 = omega (arith, h.fits) in
    copy-text dst (decimal (length s)) e (IsWord-IsText _ (IsToken-IsWord _ (length-IsToken s h)))
      (omega (arith, length-decimal (length s) small))

-- A request of a method and a name.
pub process_buffer-named :
    (c : TcpConnection) (method name t : CString)
    → IsFresh c
    → IsField method
    → str_eq method (codes "ADDFILE") ≡ false
    → IsField name
    → c.request ≡ named_request method name ++ 0 ∷ t
    → (c' : TcpConnection) × (process_buffer c ≡ some c')
      × Holds method name c c'
      × (c'.path ≡ c.path)
unfolding process_buffer copy_tokens
process_buffer-named c method name t fresh hm other h request =
    let t2 = name ++ 0 ∷ t in
    let t1 = decimal (length name) ++ b' ' ∷ t2 in
    let shape : named_request method name ++ 0 ∷ t ≡ method ++ b' ' ∷ t1 = simp append_assoc in
    let (p0, e0) = strtok-space [] method t1 hm.token in
    let (p1, e1) = strtok-space p0 (decimal (length name)) t2 (length-IsToken name h) in
    let (p2, e2) = strtok-end p1 name t h.token in
    let (p3, e3) = strtok-nul p2 t in
    let (p4, e4) = strtok-nul p3 t in
    let (m, m1, m2) = copy-text c.method method fresh.method (IsField-IsText method hm) hm.fits in
    let (k, k1, k2) = copy-length c.name_length name fresh.name_length h in
    let (n, n1, n2) = copy-field c.name name fresh.name h in
    (
      record c { request = p4 ++ 0 ∷ t; method = m; name_length = k; name = n },
      rw (request, shape, e0, e1, e2, e3, e4, m1, k1, atoi-length name h, n1, other) refl,
      record { method_is = m2; name_is = n2; status = refl; response = refl },
      refl,
    )

-- A request to add an object.
pub process_buffer-add :
    (c : TcpConnection) (name path t : CString)
    → IsFresh c
    → IsField name
    → IsField path
    → c.request ≡ add_request name path ++ 0 ∷ t
    → (c' : TcpConnection) × (process_buffer c ≡ some c')
      × Holds (codes "ADDFILE") name c c'
      × (c_str c'.path ≡ some path)
unfolding process_buffer copy_tokens copy_path str_eq
process_buffer-add c name path t fresh h hp request =
    let t4 = path ++ 0 ∷ t in
    let t3 = decimal (length path) ++ b' ' ∷ t4 in
    let t2 = name ++ b' ' ∷ t3 in
    let t1 = decimal (length name) ++ b' ' ∷ t2 in
    let verb = codes "ADDFILE" in
    let shape : add_request name path ++ 0 ∷ t ≡ verb ++ b' ' ∷ t1 = simp append_assoc in
    let (p0, e0) = strtok-space [] verb t1 (omega arith) in
    let (p1, e1) = strtok-space p0 (decimal (length name)) t2 (length-IsToken name h) in
    let (p2, e2) = strtok-space p1 name t3 h.token in
    let (p3, e3) = strtok-space p2 (decimal (length path)) t4 (length-IsToken path hp) in
    let (p4, e4) = strtok-end p3 path t hp.token in
    let (m, m1, m2) = copy-text c.method verb fresh.method (omega arith) (omega arith) in
    let (k, k1, k2) = copy-length c.name_length name fresh.name_length h in
    let (n, n1, n2) = copy-field c.name name fresh.name h in
    let (l, l1, l2) = copy-length c.path_length path fresh.path_length hp in
    let (q, q1, q2) = copy-field c.path path fresh.path hp in
    (
      record c {
        request = p4 ++ 0 ∷ t;
        method = m;
        name_length = k;
        name = n;
        path_length = l;
        path = q;
      },
      rw
          (
            request,
            shape,
            e0,
            e1,
            e2,
            e3,
            e4,
            m1,
            k1,
            atoi-length name h,
            n1,
            l1,
            atoi-length path hp,
            q1,
          )
          refl,
      record { method_is = m2; name_is = n2; status = refl; response = refl },
      q2,
    )
