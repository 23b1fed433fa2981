-- ===== src/Ostream/Settled.antt =====
-- What a writer settles: the bytes that go on the wire while headers are held back, and the
-- headers that are still held back afterwards.
use corelib_c_cpp.Base.{
  ℕ, suc, ◌+◌, ◌*◌, ◌<◌, ◌≤◌, ◌≡◌, refl, sym, ◌∙◌, ap, true, List, [], ◌∷◌, ◌++◌, arith,
  append_assoc, append-nil, length, length-append, ltb, lt→ltb, All,
}
use corelib_c_cpp.Wire.{Ret, ret_ok, id_max, lazy_seq_depth, type_sequence_start, type_sequence_end}
use corelib_c_cpp.Wire.Varint.{length-groups}
use corelib_c_cpp.Ostream.{Ostream, Writer, ◌>>◌, write_bytes, commit_if, has_pending}
use corelib_c_cpp.Ostream.Commit.{
  header, headers, holding, write_bytes-holding, write_bytes_split, commit_pending-ok,
}
use corelib_c_cpp.Ostream.Content.{IsContent}
use corelib_c_cpp.Ostream.Message.{frame}

-- What goes on the wire for `bytes` when `ids` are held back, and what is then still held back.
abbrev pub settled : List ℕ → List ℕ → List ℕ
settled ids [] = []
settled ids (b ∷ bytes) = headers ids ++ b ∷ bytes

abbrev pub left_over : List ℕ → List ℕ → List ℕ
left_over ids [] = ids
left_over ids (b ∷ bytes) = []

abbrev pub AreIds : List ℕ → Type 0
AreIds = All (λ id. id ≤ id_max)

pub settled_pos :
    (ids bytes : List ℕ)
    → 0 < length bytes
    → (settled ids bytes ≡ headers ids ++ bytes) × (left_over ids bytes ≡ [])
settled_pos ids [] h = absurd (omega arith)
settled_pos ids (b ∷ bytes) h = (refl, refl)

headers-append : (xs ys : List ℕ) → headers (xs ++ ys) ≡ headers xs ++ headers ys
headers-append [] ys = refl
headers-append (x ∷ xs) ys =
    rw (headers-append xs ys)
      (sym (append_assoc (header x type_sequence_start) (headers xs) (headers ys)))

pub settled_none : (bytes : List ℕ) → (settled [] bytes ≡ bytes) × (left_over [] bytes ≡ [])
settled_none [] = (refl, refl)
settled_none (b ∷ bytes) = (refl, refl)

pub AreIds-snoc : (ids : List ℕ) (id : ℕ) → AreIds ids → id ≤ id_max → AreIds (ids ++ id ∷ [])
AreIds-snoc [] id h k = (k, tt)
AreIds-snoc (i ∷ ids) id h k = (h.0, AreIds-snoc ids id h.1 k)

pub header_pos : (id type : ℕ) → 0 < length (header id type)
header_pos id type = (length-groups 9 (id * 8 + type)).0

pub frame_pos : (id : ℕ) (bytes : List ℕ) → 0 < length (frame id bytes)
frame_pos id bytes = omega (
  arith,
  length-append (header id type_sequence_start ++ bytes) (header 0 type_sequence_end),
  header_pos 0 type_sequence_end,
)

-- A frame behind held-back headers: its own start marker is one more of them.
pub frame_split :
    (ids : List ℕ) (id : ℕ) (bytes : List ℕ)
    → headers ids ++ frame id bytes
      ≡ (headers (ids ++ id ∷ []) ++ bytes) ++ header 0 type_sequence_end
frame_split ids id bytes =
    let start = header id type_sequence_start in
    rw (headers-append ids (id ∷ []), append-nil)
      (sym (
        ap (λ t. t ++ header 0 type_sequence_end) (append_assoc (headers ids) start bytes)
        ∙ append_assoc (headers ids) (start ++ bytes) (header 0 type_sequence_end)))

module _ {U : Type 0} where
  -- The writer puts `bytes` on the wire, behind the held-back headers if it is not empty.
  abbrev pub Settles : Writer U → List ℕ → ℕ → Type 0
  Settles w bytes n =
      (o o' : Ostream U)
      → length o.pending + n ≤ lazy_seq_depth
      → AreIds o.pending
      → write_bytes (settled o.pending bytes) o ≡ (o', ret_ok)
      → w o ≡ (holding (left_over o.pending bytes) o', ret_ok)

  pub nil-eq : {o o' : Ostream U} → write_bytes [] o ≡ (o', ret_ok) → o ≡ o'
  unfolding write_bytes
  nil-eq e = cc

  pub holding-eq :
      (bytes ids : List ℕ) (o : Ostream U) {o' : Ostream U}
      → write_bytes bytes o ≡ (o', ret_ok)
      → write_bytes bytes (holding ids o) ≡ (holding ids o', ret_ok)
  holding-eq bytes ids o e =
      write_bytes-holding bytes ids o ∙ ap (λ (r : Ostream U × Ret). (holding ids r.0, r.1)) e

  some_pending : (i : ℕ) (ids : List ℕ) (o : Ostream U) → o.pending ≡ i ∷ ids → has_pending o ≡ true
  some_pending i ids o p = ap (λ l. ltb 0 (length l)) p ∙ lt→ltb 0 (suc (length ids)) (omega arith)

  commit_if-ok :
      (ids : List ℕ) (o : Ostream U) {o' : Ostream U}
      → o.pending ≡ ids
      → AreIds o.pending
      → write_bytes (headers o.pending) o ≡ (o', ret_ok)
      → commit_if true o ≡ (holding [] o', ret_ok)
  unfolding commit_if
  commit_if-ok [] o {o'} p h e =
      rw p (ap (λ (x : Ostream U). (holding [] x, ret_ok)) (nil-eq (rw p at e)))
  commit_if-ok (i ∷ ids) o p h e = rw (some_pending i ids o p) (commit_pending-ok o h e)

  pub content-Settles :
      (w : Writer U) (bytes : List ℕ) (n : ℕ)
      → 0 < length bytes
      → IsContent w bytes
      → Settles w bytes n
  content-Settles w bytes n pos c o o' room ids e =
      let (m, e1, e2) =
        write_bytes_split (headers o.pending) bytes o
          (rw (settled_pos o.pending bytes pos).0 at e) in
      rw (c, (settled_pos o.pending bytes pos).1)
        (rw (commit_if-ok o.pending o refl ids e1) (holding-eq bytes [] m e2))

  pub nil-Settles : (n : ℕ) → Settles (λ o. (o, ret_ok)) [] n
  nil-Settles n o o' room ids e = ap (λ (x : Ostream U). (holding o.pending x, ret_ok)) (nil-eq e)

  pub append-Settles :
      (w v : Writer U) (xs ys : List ℕ) (n : ℕ)
      → Settles w xs n
      → Settles v ys n
      → Settles (w >> v) (xs ++ ys) n
  append-Settles w v [] ys n p q o o' room ids e =
      rw (p o o room ids (unfold write_bytes in refl)) (q o o' room ids e)
  append-Settles w v (x ∷ xs) ys n p q o o' room ids e =
      let (m, e1, e2) =
        write_bytes_split (headers o.pending ++ x ∷ xs) ys o {o' = o'}
          (rw (append_assoc (headers o.pending) (x ∷ xs) ys) e) in
      rw (p o m room ids e1) (
        q (holding [] m) (holding [] o') (omega arith) tt
          (rw (settled_none ys).0 (holding-eq ys [] m e2))
        ∙ ap (λ l. (holding l o', ret_ok)) (settled_none ys).1)
  -- A lazily opened sequence inside `o` is one more id held back.
