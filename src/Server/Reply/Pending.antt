-- ===== src/Server/Reply/Pending.antt =====
-- signaling_worker.cpp: what is still to be sent of a list of replies, and what one write takes
-- of it.
use rtc_frameworker.Prelude.{
  ℕ, zero, suc, ◌+◌, ◌≤◌, ◌<◌, ◌≡◌, refl, sym, ap, ◌∙◌, ◌⊎◌, inl, inr, leb, List, [], ◌∷◌, ◌++◌,
  arith, length, take, drop, append_assoc, append-nil, Bool-cases, length-take, ◌↔◌, ap₂, drop-nil,
  length-drop,
}
use rtc_frameworker.Messages.{Bytes}
use rtc_frameworker.Base.Socket.{Answer, value, error, eagain, eintr, other, sock_write_data}
use rtc_frameworker.Server.Connection.{Slice}
use rtc_frameworker.Prelude.Int.{pos, negsuc}
use rtc_frameworker.Server.Reply.{nwritten, End, emptied, written}

-- The bytes of a slice.
abbrev pub bytes_of : Slice → Bytes
bytes_of s = take s.size s.memory

-- What is still to be sent, in order.
abbrev pub pending_of : List Slice → Bytes
pending_of [] = []
pending_of (s ∷ ss) = bytes_of s ++ pending_of ss

abbrev pub pending : List Slice → ℕ → Bytes
pending [] cur = []
pending (s ∷ ss) cur = drop cur (bytes_of s) ++ pending_of ss

-- Each slice is not empty and lies within its memory.
abbrev pub AllWithin : List Slice → Type 0
AllWithin [] = Unit
AllWithin (s ∷ ss) = (0 < s.size) × (s.size ≤ length s.memory) × AllWithin ss

-- The position is inside the first slice.
abbrev pub IsInside : List Slice → ℕ → Type 0
IsInside [] cur = cur ≡ 0
IsInside (s ∷ ss) cur = cur < s.size

pub take-nil : (n : ℕ) → take {A = ℕ} n [] ≡ []
take-nil zero = refl
take-nil (suc n) = refl

pub take-drop-split :
    (n cur size : ℕ) (m : Bytes)
    → cur + n ≤ size
    → drop cur (take size m) ≡ take n (drop cur m) ++ drop (cur + n) (take size m)
take-drop-split zero zero size m h = refl
take-drop-split (suc n) zero zero m h = absurd (omega arith)
take-drop-split (suc n) zero (suc size) [] h = sym (drop-nil (0 + suc n))
take-drop-split (suc n) zero (suc size) (b ∷ m) h =
    let e : 0 + suc n ≡ suc (0 + n) = omega arith in
    rw e (ap (◌∷◌ b) (take-drop-split n zero size m (omega arith)))
take-drop-split n (suc cur) zero m h = absurd (omega arith)
take-drop-split n (suc cur) (suc size) [] h = rw (drop-nil {A = ℕ} (suc cur + n), take-nil n)
take-drop-split n (suc cur) (suc size) (b ∷ m) h =
    let e : suc cur + n ≡ suc (cur + n) = omega arith in
    rw e (take-drop-split n cur size m (omega arith))

pub drop_end : (n : ℕ) (xs : Bytes) → length xs ≤ n → drop n xs ≡ []
drop_end zero [] h = refl
drop_end zero (x ∷ xs) h = absurd (omega arith)
drop_end (suc n) [] h = refl
drop_end (suc n) (x ∷ xs) h = drop_end n xs (omega arith)

-- The whole of what a write takes, if it reaches the end of the slice.
pub written_rest :
    (n cur : ℕ) (s : Slice)
    → s.size ≡ cur + n
    → s.size ≤ length s.memory
    → drop cur (bytes_of s) ≡ written n cur s
written_rest n cur s e w =
    take-drop-split n cur s.size s.memory (omega arith)
    ∙ ap (◌++◌ (written n cur s))
        (drop_end (cur + n) (bytes_of s) (omega (arith, length-take s.size s.memory)))
    ∙ append-nil (written n cur s)

pub nwritten-cases :
    (a : Answer ℕ) (len : ℕ)
    → ((k : ℕ) × (nwritten a len ≡ negsuc k))
      ⊎ (nwritten a len ≡ pos 0)
      ⊎ ((n : ℕ) × (nwritten a len ≡ pos (suc n)) × (suc n ≤ len))
unfolding sock_write_data
nwritten-cases (error eagain) len = inr (inl refl)
nwritten-cases (error eintr) len = inl (0, refl)
nwritten-cases (error other) len = inl (0, refl)
nwritten-cases (value zero) len = ground arith
nwritten-cases (value (suc room)) zero = ground arith
nwritten-cases (value (suc room)) (suc len) = elim (Bool-cases (leb (suc len) (suc room))) [
  | inl fits ↦ rw (fits, nwritten) (inr (inr (len, refl, omega arith)))
  | inr part ↦ rw (part, nwritten) (inr (inr (room, refl, ground arith)))
]

-- A result of the loop that keeps the stream: what was sent and what is pending, the slices well
-- placed, and nothing left exactly when it says so.
pub record Keeps (stream : Bytes) (r : End × List Slice × ℕ × Bytes) : Type 0 where
  pub total : r.3 ++ pending r.1 r.2 ≡ stream
  pub within : AllWithin r.1
  pub inside : IsInside r.1 r.2
  pub ends : (r.0 ≡ emptied) ↔ (r.1 ≡ [])

pub start-IsInside : (ss : List Slice) → AllWithin ss → IsInside ss 0
start-IsInside [] w = refl
start-IsInside (s ∷ ss) w = w.0

pub pending_start : (ss : List Slice) → pending ss 0 ≡ pending_of ss
pending_start [] = refl
pending_start (s ∷ ss) = refl

-- What a write takes, in front of what is pending after it: to the end of the slice, or short of
-- it.
pub pending_whole :
    (n cur : ℕ) (s : Slice) (ss : List Slice)
    → s.size ≡ cur + n
    → s.size ≤ length s.memory
    → written n cur s ++ pending ss 0 ≡ pending (s ∷ ss) cur
pending_whole n cur s ss e w = ap₂ ◌++◌ (sym (written_rest n cur s e w)) (pending_start ss)

pub pending_part :
    (n cur : ℕ) (s : Slice) (ss : List Slice)
    → cur + n ≤ s.size
    → written n cur s ++ pending (s ∷ ss) (cur + n) ≡ pending (s ∷ ss) cur
pending_part n cur s ss h =
    sym (append_assoc (written n cur s) _ (pending_of ss))
    ∙ ap (λ t. t ++ pending_of ss) (sym (take-drop-split n cur s.size s.memory h))

pub length-written :
    (n cur : ℕ) (s : Slice)
    → cur + n ≤ s.size
    → s.size ≤ length s.memory
    → length (written n cur s) ≡ n
length-written n cur s h w =
    omega (arith, length-take n (drop cur s.memory), length-drop cur s.memory)

pending_of-snoc :
    (ss : List Slice) (s : Slice) → pending_of (ss ++ s ∷ []) ≡ pending_of ss ++ bytes_of s
pending_of-snoc [] s = append-nil (bytes_of s)
pending_of-snoc (t ∷ ss) s =
    ap (◌++◌ (bytes_of t)) (pending_of-snoc ss s)
    ∙ sym (append_assoc (bytes_of t) (pending_of ss) (bytes_of s))

-- A slice at the end of the list is sent last.
pub pending-snoc :
    (ss : List Slice) (s : Slice) (cur : ℕ)
    → IsInside ss cur
    → pending (ss ++ s ∷ []) cur ≡ pending ss cur ++ bytes_of s
pending-snoc [] s cur i = rw i (append-nil (bytes_of s))
pending-snoc (t ∷ ss) s cur i =
    ap (◌++◌ (drop cur (bytes_of t))) (pending_of-snoc ss s)
    ∙ sym (append_assoc (drop cur (bytes_of t)) (pending_of ss) (bytes_of s))
