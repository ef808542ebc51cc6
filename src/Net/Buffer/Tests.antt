-- ===== src/Net/Buffer/Tests.antt =====
-- Runs of the buffer at concrete inputs.
use wethands.Prelude.{
  ℕ, ◌≡◌, ◌≤◌, refl, Option, some, List, [], ◌∷◌, length, take, ok, fault, overlap, Unless, arith,
  length-take,
}
use wethands.Net.Buffer.{
  Buffer, writable_bytes, readable_bytes, prependable_bytes, memcpy, resize, move_to_front, grow,
  check_and_make_place, append, read_capacity, read_fd, find_crlf, starts_with, search_for,
}
use wethands.Net.Buffer.Laws.{IsValid}
use wethands.Net.Buffer.ReadFd.{Overran, Reads, read_fd_lem}

-- Sixteen bytes of storage with "a\r\nb" in it.
abbrev pub sample : Buffer
sample = record {
  buffer = 0 ∷ 0 ∷ 0 ∷ 0 ∷ 0 ∷ 0 ∷ 0 ∷ 0 ∷ 0 ∷ 97 ∷ 13 ∷ 10 ∷ 98 ∷ 0 ∷ [];
  read_index = 9;
  write_index = 13;
}

sample-IsValid : IsValid sample
sample-IsValid = omega arith

small_readv : ℕ → Option (List ℕ)
small_readv n = some (take n (1 ∷ 2 ∷ 3 ∷ []))

-- Ten bytes of room in front, so that "a\r\nb" moves beside itself.
abbrev wide : Buffer
wide = record {
  buffer = 0 ∷ 0 ∷ 0 ∷ 0 ∷ 0 ∷ 0 ∷ 0 ∷ 0 ∷ 0 ∷ 0 ∷ 0 ∷ 0 ∷ 97 ∷ 13 ∷ 10 ∷ 98 ∷ 0 ∷ [];
  read_index = 12;
  write_index = 16;
}

move_then_append :
    append wide (7 ∷ 8 ∷ [])
    ≡ ok (record {
      buffer = 0 ∷ 0 ∷ 0 ∷ 0 ∷ 0 ∷ 0 ∷ 0 ∷ 0 ∷ 97 ∷ 13 ∷ 10 ∷ 98 ∷ 7 ∷ 8 ∷ 10 ∷ 98 ∷ 0 ∷ [];
      read_index = 8;
      write_index = 14;
    })
unfolding append check_and_make_place writable_bytes prependable_bytes readable_bytes move_to_front
    memcpy
move_then_append = refl

-- The four bytes of the sample would move over themselves.
move_over_itself : append sample (7 ∷ 8 ∷ []) ≡ fault overlap
unfolding append check_and_make_place writable_bytes prependable_bytes readable_bytes move_to_front
    memcpy
move_over_itself = refl

grow_then_append :
    append sample (5 ∷ 6 ∷ 7 ∷ [])
    ≡ ok (record {
      buffer = 0 ∷ 0 ∷ 0 ∷ 0 ∷ 0 ∷ 0 ∷ 0 ∷ 0 ∷ 0 ∷ 97 ∷ 13 ∷ 10 ∷ 98 ∷ 5 ∷ 6 ∷ 7 ∷ [];
      read_index = 9;
      write_index = 16;
    })
unfolding append check_and_make_place writable_bytes prependable_bytes readable_bytes grow resize
    memcpy
grow_then_append = refl

find_crlf_at : find_crlf sample ≡ some 10
unfolding find_crlf readable_bytes search_for starts_with
find_crlf_at = refl

small_readv-le : (n : ℕ) (bytes : List ℕ) → small_readv n ≡ some bytes → length bytes ≤ n
unfolding small_readv
small_readv-le n bytes e = ground (arith, length-take {A = ℕ} n (1 ∷ 2 ∷ 3 ∷ []))

read_fd_example :
    Unless
      (Overran (some (1 ∷ 2 ∷ 3 ∷ [])) sample)
      (read_fd small_readv sample)
      (Reads (some (1 ∷ 2 ∷ 3 ∷ [])) sample)
unfolding small_readv read_capacity writable_bytes
read_fd_example = read_fd_lem small_readv sample small_readv-le sample-IsValid (omega arith)
