-- ===== src/Http/Laws.antt =====
-- source/net/http_parse.cpp: what an accepted request has been cut from.
use torfoil.Prelude.{
  ℕ, suc, ◌+◌, ◌*◌, ◌≤◌, ◌<◌, ◌≡◌, refl, sym, Bool, true, false, ◌||◌, none, some, [], ◌∷◌, ◌++◌,
  ltb, ◌==◌, if◌then◌else◌, length, take, Bytes, arith, ap, ◌∙◌, Bool-cases, Option-cases, >>=-some,
  inl, inr,
}
use torfoil.Bytes.Text.{starts_with}
use torfoil.Bytes.Text.Laws.{starts_with_iff}
use torfoil.Magnet.{cut_at}
use torfoil.Http.{
  find_at, find_text, crlf, HttpRequest, Parsed, request_line, with_target, line_outcome,
  field_loop, parse_http_headers,
}

-- A place found is one where the text looked for stands.
pub find_at-some :
    (needle s : Bytes) (pos at : ℕ)
    → find_at needle pos s ≡ some at
    → (front back : Bytes) × (s ≡ front ++ (needle ++ back)) × (at ≡ pos + length front)
unfolding find_at
find_at-some needle [] pos at h = cc
find_at-some needle (c ∷ s) pos at h = elim (Bool-cases (starts_with (c ∷ s) needle)) [
  | inl here ↦
      let h' : some pos ≡ some at = rw here at h in
      let (back, whole) = (starts_with_iff (c ∷ s) needle).0 here in
      ([], back, whole, omega (arith, some_same h'))
  | inr other ↦
      let (front, back, whole, place) = find_at-some needle s (suc pos) at (rw other at h) in
      (c ∷ front, back, ap (◌∷◌ c) whole, omega (arith, place))
]
  where
    some_same : some pos ≡ some at → pos ≡ at
    some_same e = cc

-- No place before the one found has the text looked for.
find_at-first :
    (needle s : Bytes) (pos at : ℕ)
    → find_at needle pos s ≡ some at
    → (front back : Bytes) → s ≡ front ++ (needle ++ back)
    → at ≤ pos + length front
unfolding find_at
find_at-first needle [] pos at h front back whole = cc
find_at-first needle (c ∷ s) pos at h [] back whole =
    let here = (starts_with_iff (c ∷ s) needle).1 (back, whole) in
    let h' : some pos ≡ some at = rw here at h in let same : pos ≡ at = cc in omega (arith, same)
find_at-first needle (c ∷ s) pos at h (d ∷ front) back whole =
    elim (Bool-cases (starts_with (c ∷ s) needle)) [
      | inl here ↦
          let h' : some pos ≡ some at = rw here at h in
          let same : pos ≡ at = cc in omega (arith, same)
      | inr other ↦
          let tail : s ≡ front ++ (needle ++ back) = cc in
          omega (arith, find_at-first needle s (suc pos) at (rw other at h) front back tail)
    ]

with_target_lem :
    (r : HttpRequest) (target : Bytes)
    → ((with_target r target).method ≡ r.method) × ((with_target r target).target ≡ target)
unfolding with_target
with_target_lem r target = elim (Option-cases (cut_at b'?' target)) [
  | inl e ↦ rw (with_target, e) (refl, refl)
  | inr (parts, e) ↦ rw (with_target, e) (refl, refl)
]

-- A request line gives a method and a target.
request_line-some :
    (r r' : HttpRequest) (line : Bytes)
    → request_line r line ≡ some r'
    → (0 < length r'.method) × (0 < length r'.target)
unfolding request_line
request_line-some r r' line h =
    let (parts, _, h1) = >>=-some (cut_at b' ' line) _ h in
    let (more, _, h2) = >>=-some (cut_at b' ' parts.1) _ h1 in
    elim (Bool-cases (length parts.0 == 0 || length more.0 == 0)) [
      | inl e ↦ let h3 : none ≡ some r' = rw e at h2 in cc
      | inr e ↦
          let h3 : some (with_target (record r { method = parts.0 }) more.0) ≡ some r' =
            rw e at h2 in
          let same : with_target (record r { method = parts.0 }) more.0 ≡ r' = cc in
          let (m, t) = with_target_lem (record r { method = parts.0 }) more.0 in
          (
            omega (
              arith,
              ap length (sym m ∙ ap (λ q. q.method) same),
              (nonempty (length parts.0) (length more.0) e).0,
            ),
            omega (
              arith,
              ap length (sym t ∙ ap (λ q. q.target) same),
              (nonempty (length parts.0) (length more.0) e).1,
            ),
          )
    ]
  where
    nonempty : (m n : ℕ) → (m == 0 || n == 0) ≡ false → (0 < m) × (0 < n)
    nonempty m n e = ground arith

-- What is known of an accepted request.
pub record IsRequest (raw : Bytes) (r : HttpRequest) (offset : ℕ) : Type 0 where
  pub head : Bytes
  pub body : Bytes
  pub whole : raw ≡ head ++ ((crlf ++ crlf) ++ body)
  pub begins : offset ≡ length head + 4
  pub first :
      (front back : Bytes) → raw ≡ front ++ ((crlf ++ crlf) ++ back) → length head ≤ length front
  pub has_method : 0 < length r.method
  pub has_target : 0 < length r.target

read_line :
    (out : HttpRequest) (raw : Bytes) (stop line_end : ℕ) (r : HttpRequest) (offset : ℕ)
    → line_outcome out raw stop line_end ≡ Parsed.parsed r offset
    → (offset ≡ stop + 4) × (0 < length r.method) × (0 < length r.target)
unfolding line_outcome
read_line out raw stop line_end r offset h = elim (Bool-cases (ltb stop line_end)) [
  | inl e ↦ let h' : Parsed.refused ≡ Parsed.parsed r offset = rw e at h in cc
  | inr e ↦
      let h' = rw e at h in
      elim (Option-cases (request_line out (take line_end raw))) [
        | inl none_read ↦
            let h2 : Parsed.refused ≡ Parsed.parsed r offset = rw none_read at h' in cc
        | inr (q, read) ↦
            let h2 : Parsed.parsed
                  (record q { headers = field_loop (length raw) raw stop (line_end + 2) })
                  (stop + 4)
                ≡ Parsed.parsed r offset =
              rw read at h' in
            let same : record q { headers = field_loop (length raw) raw stop (line_end + 2) } ≡ r =
              cc in
            let place : stop + 4 ≡ offset = cc in
            let (method, target) = request_line-some out q (take line_end raw) read in
            (
              sym place,
              omega (arith, method, ap (λ x. length x.method) same),
              omega (arith, target, ap (λ x. length x.target) same),
            )
      ]
]

-- A request is accepted only with its blank line: the text is the header, CR LF CR LF and the body,
-- the CR LF CR LF is the first in the text, the offset returned is where the body begins, and neither
-- the method nor the target is empty.
pub parse_http_headers-IsRequest :
    (out : HttpRequest) (raw : Bytes) (r : HttpRequest) (offset : ℕ)
    → parse_http_headers out raw ≡ Parsed.parsed r offset
    → IsRequest raw r offset
unfolding parse_http_headers
parse_http_headers-IsRequest out raw r offset h =
    elim (Option-cases (find_text (crlf ++ crlf) 0 raw)) [
      | inl e ↦ absurd (no_request (rw (parse_http_headers, e) at h))
      | inr (stop, found) ↦
          let h' = rw (parse_http_headers, found) at h in
          elim (Option-cases (find_text crlf 0 raw)) [
            | inl e ↦ let h2 : Parsed.refused ≡ Parsed.parsed r offset = rw e at h' in cc
            | inr (line_end, e) ↦
                let (place, method, target) =
                  read_line out raw stop line_end r offset (rw e at h') in
                let (head, body, whole, stop_at) = find_at-some (crlf ++ crlf) raw 0 stop found in
                record {
                  head = head;
                  body = body;
                  whole = whole;
                  begins = omega (arith, place, stop_at);
                  first = λ front back cut. omega (
                    arith,
                    stop_at,
                    find_at-first (crlf ++ crlf) raw 0 stop found front back cut,
                  );
                  has_method = method;
                  has_target = target;
                }
          ]
    ]
  where
    no_request :
        (if ltb (16 * 1024) (length raw) then Parsed.refused else Parsed.incomplete)
          ≡ Parsed.parsed r offset
        → ⊥
    no_request = go (ltb (16 * 1024) (length raw))
      where
        go :
            (b : Bool)
            → (if b then Parsed.refused else Parsed.incomplete) ≡ Parsed.parsed r offset
            → ⊥
        go true e = absurd (cc)
        go false e = absurd (cc)
