-- ===== src/Acc/Iov/Spread.antt =====
-- What readv leaves in the caller's memory: the bytes that it got, in the order of the `iovec`s.
use libsysve.Prelude.{
  ℕ, suc, ◌+◌, ◌-◌, ◌≤◌, ◌<◌, ◌≡◌, ◌≢◌, refl, ◌∙◌, List, [], ◌∷◌, leb, arith, ap, sym, Bytes, copy,
  true, false,
}
use Prim.Native.Nat.{min}
use native.Mathlib.Decide.{dec_lt}
use libsysve.Acc.Iov.{
  Iovec, drop_iov, total_size, Scatter, scatter_from, scatter, stop_place, gather,
}
use libsysve.Acc.Iov.Address.{address, IsAt, IsAt-next, IsAt-stop, address_head}
use libsysve.Acc.Iov.Gather.{AtPlace, gather-Gathered}

-- No address belongs to two bytes of the `iovec`s.
abbrev pub Separate : List Iovec → Type 0
Separate iov = (x y : ℕ) → x < y → y < total_size iov → address iov x ≢ address iov y

-- `size` bytes went to the addresses from byte `q` on, and no other address changed.
abbrev pub Spread : List Iovec → (q size : ℕ) → (bytes before after : Bytes) → Type 0
Spread iov q size bytes before after =
    ((x : ℕ) → x < size → after (address iov (q + x)) ≡ bytes x)
    × ((a : ℕ) → ((x : ℕ) → x < size → a ≢ address iov (q + x)) → after a ≡ before a)

copied-Spread :
    (iov : List Iovec) (q n done size : ℕ) (v : Iovec) (vs : List Iovec) (bytes before : Bytes)
    → IsAt iov q n done (v ∷ vs)
    → size ≤ v.iov_len - done
    → Spread iov q size bytes before (copy before (v.iov_base + done) bytes size)
copied-Spread iov q n done size v vs bytes before at le = (written, kept)
  where
    place : (x : ℕ) → x < size → address iov (q + x) ≡ v.iov_base + done + x
    place x lt = sym (at.same x) ∙ address_head v vs (done + x) (omega arith) ∙ omega arith

    back : (x : ℕ) → v.iov_base + done + x - (v.iov_base + done) ≡ x
    back x = omega arith

    written :
        (x : ℕ)
        → x < size
        → copy before (v.iov_base + done) bytes size (address iov (q + x)) ≡ bytes x
    written x lt = rw (place x lt) (ground (arith, ap bytes (back x)))

    sum : {a : ℕ} → v.iov_base + done ≤ a → a ≡ v.iov_base + done + (a - (v.iov_base + done))
    sum le' = omega arith

    kept :
        (a : ℕ)
        → ((x : ℕ) → x < size → a ≢ address iov (q + x))
        → copy before (v.iov_base + done) bytes size a ≡ before a
    kept a out = elim (dec_lt a (v.iov_base + done)) [
      | yes below ↦ ground arith
      | no over ↦ elim (dec_lt a (v.iov_base + done + size)) [
        | yes within ↦ absurd (
            out (a - (v.iov_base + done)) (omega (arith, over)) (
              sum (omega (arith, over))
              ∙ sym (place (a - (v.iov_base + done)) (omega (arith, over)))))
        | no beyond ↦ ground (arith, beyond)
      ]
    ]

-- Two spreads, one behind the other.
pub joined-Spread :
    (iov : List Iovec) (q first size : ℕ) (bytes tail before middle after : Bytes)
    → Separate iov
    → ((k : ℕ) → tail k ≡ bytes (first + k))
    → first ≤ size
    → q + size ≤ total_size iov
    → Spread iov q first bytes before middle
    → Spread iov (q + first) (size - first) tail middle after
    → Spread iov q size bytes before after
joined-Spread iov q first size bytes tail before middle after apart same le room (put, kept)
      (put', kept') =
    (
      written,
      λ a out.
          kept' a (λ x lt eq. out (first + x) (omega arith) (eq ∙ ap (address iov) (omega arith)))
          ∙ kept a (λ x lt. out x (omega arith)),
    )
  where
    written : (x : ℕ) → x < size → after (address iov (q + x)) ≡ bytes x
    written x lt = elim (dec_lt x first) [
      | yes here ↦
          kept' (address iov (q + x))
            (λ y lt'. apart (q + x) (q + first + y) (omega arith) (omega arith))
          ∙ put x here
      | no behind ↦
          ap (λ y. after (address iov y)) (omega (arith, behind))
          ∙ put' (x - first) (omega (arith, behind))
          ∙ same (x - first)
          ∙ ap bytes (omega (arith, behind))
    ]

scatter_from-last :
    (n done source size : ℕ) (v : Iovec) (vs : List Iovec) (bytes : Bytes) (s : Scatter)
    → size ≤ v.iov_len - done
    → scatter_from (v ∷ vs) n done source size bytes s ≡ record {
      mem = copy s.mem (v.iov_base + done) (λ k. bytes (source + k)) size;
      place = stop_place n done (v.iov_len - done) size;
    }
unfolding scatter_from
scatter_from-last n done source size v vs bytes s le =
    let all : min (v.iov_len - done) size ≡ size = omega arith in
    let here : leb size size ≡ true = ground arith in rw (all, here) refl

scatter_from-more :
    (n done source size : ℕ) (v : Iovec) (vs : List Iovec) (bytes : Bytes) (s : Scatter)
    → v.iov_len - done < size
    → scatter_from (v ∷ vs) n done source size bytes s
      ≡ scatter_from vs
          (suc n)
          0
          (source + (v.iov_len - done))
          (size - (v.iov_len - done))
          bytes
          (record s {
            mem = copy s.mem (v.iov_base + done) (λ k. bytes (source + k)) (v.iov_len - done);
          })
unfolding scatter_from
scatter_from-more n done source size v vs bytes s lt =
    let part : min (v.iov_len - done) size ≡ v.iov_len - done = omega arith in
    let on : leb size (v.iov_len - done) ≡ false = ground arith in rw (part, on) refl

-- The memory got the bytes, and the place moved on by as much.
abbrev pub Scattered : List Iovec → (q size : ℕ) → Bytes → Bytes → Scatter → Type 0
Scattered iov q size bytes before s =
    Spread iov q size bytes before s.mem × AtPlace iov (q + size) s.place

scatter_from-Scattered :
    (iov rest : List Iovec) (q n done source size : ℕ) (bytes : Bytes) (s : Scatter)
    → Separate iov
    → IsAt iov q n done rest
    → q + size ≤ total_size iov
    → 0 < size
    → Scattered iov q size
        (λ k. bytes (source + k))
        s.mem
        (scatter_from rest n done source size bytes s)
unfolding total_size
scatter_from-Scattered iov [] q n done source size bytes s apart at room some =
    absurd (omega (arith, at.total, at.inside))
scatter_from-Scattered iov (v ∷ vs) q n done source size bytes s apart at room some =
    elim (dec_lt (v.iov_len - done) size) [
      | no last ↦ rw (scatter_from-last n done source size v vs bytes s (omega (arith, last))) (
        copied-Spread iov q n done size v vs (λ k. bytes (source + k)) s.mem at
            (omega (arith, last)),
        IsAt-stop iov q n done size v vs at (omega (arith, last)),
      )
      | yes more ↦ rw (scatter_from-more n done source size v vs bytes s more) (
          let (spread, at') =
            scatter_from-Scattered iov vs (q + (v.iov_len - done)) (suc n) 0
              (source + (v.iov_len - done)) (size - (v.iov_len - done)) bytes
              (record s {
                mem = copy s.mem (v.iov_base + done) (λ k. bytes (source + k)) (v.iov_len - done);
              })
              apart (IsAt-next iov q n done v vs at) (omega arith) (omega arith) in
          (
            joined-Spread iov q (v.iov_len - done) size (λ k. bytes (source + k)) _ s.mem _ _ apart
                (λ k. ap bytes (omega arith)) (omega arith) room
                (copied-Spread iov q n done (v.iov_len - done) v vs (λ k. bytes (source + k)) s.mem
                  at (omega arith))
                spread,
            rw (end more) at',
          ))
    ]
  where
    end : v.iov_len - done < size → q + size ≡ q + (v.iov_len - done) + (size - (v.iov_len - done))
    end lt = omega arith

pub scatter-Scattered :
    (iov : List Iovec) (q size : ℕ) (bytes : Bytes) (s : Scatter)
    → Separate iov
    → AtPlace iov q s.place
    → q + size ≤ total_size iov
    → 0 < size
    → Scattered iov q size bytes s.mem (scatter iov s bytes size)
unfolding scatter
scatter-Scattered iov q size bytes s apart at room some =
    let ((put, kept), at') =
      scatter_from-Scattered iov (drop_iov s.place.next_iov_num iov) q s.place.next_iov_num
        s.place.iov_len_done 0 size bytes s apart at room some in
    (((λ x lt. put x lt ∙ ap bytes (omega arith)), kept), at')

-- What readv's loop spreads over the iovecs, writev's loop gathers back byte for byte from the
-- same place. The bytes fit behind that place, and no two places of the iovecs share an address.
pub gather-scatter :
    (iov : List Iovec) (q size : ℕ) (bytes : Bytes) (s : Scatter)
    → Separate iov
    → AtPlace iov q s.place
    → q + size ≤ total_size iov
    → (x : ℕ) → x < size
    → (gather (scatter iov s bytes size).mem iov s.place size).bytes x ≡ bytes x
gather-scatter iov q size bytes s apart at room x lt =
    let ((put, kept), at') = scatter-Scattered iov q size bytes s apart at room (omega arith) in
    let (whole, at'', filled) =
      gather-Gathered (scatter iov s bytes size).mem iov s.place q size at room (omega arith) in
    filled x lt ∙ put x lt
