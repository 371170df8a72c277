-- ===== src/Backends/Fmc/Discovery/Pages.antt =====
-- Discovery against a server that pages through a fixed list of items.
use mathlib.Core.List.{append-nil, append_assoc}
use native.Mathlib.Nat.{zero-add, suc-add}
use ftd_metrics_exporter.Prelude.{
  ℕ, zero, suc, ◌+◌, ◌-◌, ◌*◌, ◌++◌, ◌≤◌, ◌<◌, ◌≡◌, refl, sym, ap, ◌∙◌, List, [], ◌∷◌, Option, none,
  some, arith, length, length-append, take, drop, ltb,
}
use ftd_metrics_exporter.Prelude.Json.{
  Json, items, from_items, obj, arr, num, field, end, get, below, whole,
}
use ftd_metrics_exporter.Backends.Fmc.Discovery.{
  FmcDiscoveredDevice, Warning, RawDeviceRecordsPage, paging_field, parse_items, parse_item, keep,
  page, page_of, parse_device_records_page, managed, Reply, body, Discovered, devices, after_page,
  fetch_loop, fetch_all_device_records,
}

-- A page that reports the true count and claims any page size `limit`.
unfoldable pub page_body : (count : ℕ) → (limit : Json) → List Json → Json
page_body count limit raws = obj (
    field "items" (arr (from_items raws))
      (field "paging" (obj (field "count" (num (whole count)) (field "limit" limit end))) end))

-- A server that sends at most `cap` items from the offset on.
unfoldable pub server : (cap : ℕ) → (limit : Json) → List Json → ℕ → Reply
server cap limit raws offset =
    body (some (page_body (length raws) limit (take cap (drop offset raws))))

server_lem :
    (cap : ℕ) (limit : Json) (raws : List Json) (offset : ℕ)
    → server cap limit raws offset
      ≡ body (some (page_body (length raws) limit (take cap (drop offset raws))))
unfolding server
server_lem cap limit raws offset = refl

items-from_items : (raws : List Json) → items (from_items raws) ≡ raws
items-from_items [] = refl
items-from_items (r ∷ rs) = ap (◌∷◌ r) (items-from_items rs)

-- The page that is read from such a body.
abbrev read_page : (count : ℕ) → (limit : Json) → List Json → RawDeviceRecordsPage
read_page count limit raws = record {
  items = (parse_items raws).0;
  reported_limit =
      paging_field (some (obj (field "count" (num (whole count)) (field "limit" limit end))))
        "limit";
  reported_count = some (whole count);
  raw_item_count = length raws;
  item_warnings = (parse_items raws).1;
}

parse_page_body :
    (count : ℕ) (limit : Json) (raws : List Json)
    → parse_device_records_page (some (page_body count limit raws))
      ≡ page (read_page count limit raws)
unfolding parse_device_records_page page_of get paging_field page_body
parse_page_body count limit raws = rw (items-from_items raws)

below-whole : (n m : ℕ) → below n (whole m) ≡ ltb n m
unfolding below
below-whole n m = ground arith

keep-append :
    (d : Option FmcDiscoveredDevice) (xs ys : List FmcDiscoveredDevice)
    → keep d (xs ++ ys) ≡ keep d xs ++ ys
keep-append none xs ys = refl
keep-append (some d) xs ys = refl

parse_items-append :
    (xs ys : List Json) → ((parse_items (xs ++ ys)).0 ≡ (parse_items xs).0 ++ (parse_items ys).0)
unfolding parse_items
parse_items-append [] ys = refl
parse_items-append (x ∷ xs) ys =
    ap (keep (parse_item x).0) (parse_items-append xs ys)
    ∙ keep-append (parse_item x).0 (parse_items xs).0 (parse_items ys).0

warnings-append :
    (xs ys : List Json) → (parse_items (xs ++ ys)).1 ≡ (parse_items xs).1 ++ (parse_items ys).1
unfolding parse_items
warnings-append [] ys = refl
warnings-append (x ∷ xs) ys =
    ap (◌++◌ (parse_item x).1) (warnings-append xs ys)
    ∙ sym (append_assoc (parse_item x).1 (parse_items xs).1 (parse_items ys).1)

managed-append : (xs ys : List FmcDiscoveredDevice) → managed (xs ++ ys) ≡ managed xs ++ managed ys
unfolding managed
managed-append [] ys = refl
managed-append (x ∷ xs) ys = ground (arith, managed-append xs ys)

take-append-drop : (n : ℕ) (xs : List Json) → take n xs ++ drop n xs ≡ xs
take-append-drop zero xs = refl
take-append-drop (suc n) [] = refl
take-append-drop (suc n) (x ∷ xs) = ap (◌∷◌ x) (take-append-drop n xs)

drop-drop : (m n : ℕ) (xs : List Json) → drop n (drop m xs) ≡ drop (m + n) xs
drop-drop zero n xs = rw zero-add
drop-drop (suc m) zero [] = rw suc-add
drop-drop (suc m) (suc n) [] = rw suc-add
drop-drop (suc m) n (x ∷ xs) = rw suc-add (drop-drop m n xs)

drop-length-take : (c : ℕ) (xs : List Json) → drop (length (take c xs)) xs ≡ drop c xs
drop-length-take zero xs = refl
drop-length-take (suc c) [] = refl
drop-length-take (suc c) (x ∷ xs) = drop-length-take c xs

length-take-drop : (c : ℕ) (xs : List Json) → length (take c xs) + length (drop c xs) ≡ length xs
length-take-drop c xs =
    sym (length-append (take c xs) (drop c xs)) ∙ ap length (take-append-drop c xs)

length-drop : (c : ℕ) (xs : List Json) → length (drop c xs) ≡ length xs - c
length-drop zero xs = omega arith
length-drop (suc c) [] = omega arith
length-drop (suc c) (x ∷ xs) = omega (arith, length-drop c xs)

-- The pages that are left are enough for what is left behind the next page.
pages_left :
    (pages c n : ℕ) → 0 < n → n + suc c ≤ suc pages * suc c → (n - suc c) + suc c ≤ pages * suc c
pages_left zero c n p h = absurd (omega arith)
pages_left (suc pages) c n p h = grind arith

module _ (max_pages : ℕ) (c : ℕ) (limit : Json) (raws : List Json) where
  -- The result of the loop when `rest` is left.
  abbrev result : List FmcDiscoveredDevice → List Warning → List Json → Discovered × List Warning
  result found warnings rest =
      (devices (found ++ managed (parse_items rest).0), warnings ++ (parse_items rest).1)

  after_page_lem :
      (chunk rest : List Json) (found : List FmcDiscoveredDevice) (seen : ℕ)
      (warnings : List Warning) (following : Discovered × List Warning)
      → 0 < length chunk
      → seen + length rest ≡ length raws
      → following ≡ result found warnings rest
      → after_page
          (server (suc c) limit raws)
          max_pages
          (read_page (length raws) limit chunk)
          found
          seen
          warnings
          following
        ≡ result found warnings rest
  unfolding after_page parse_items managed
  after_page_lem chunk [] found seen warnings following p e q =
      ground (arith, append-nil found, append-nil warnings, below-whole seen (length raws))
  after_page_lem chunk (r ∷ rest) found seen warnings following p e q =
      ground (arith, below-whole seen (length raws))

  -- The page at an offset, behind which `rest` is left.
  next_page :
      (pages offset : ℕ) (found : List FmcDiscoveredDevice) (warnings : List Warning)
      → let chunk = take (suc c) (drop offset raws) in
        fetch_loop (server (suc c) limit raws) max_pages (suc pages) offset offset found warnings
        ≡ after_page
            (server (suc c) limit raws)
            max_pages
            (read_page (length raws) limit chunk)
            (found ++ managed (parse_items chunk).0)
            (offset + length chunk)
            (warnings ++ (parse_items chunk).1)
            (fetch_loop
              (server (suc c) limit raws)
              max_pages
              pages
              (offset + length chunk)
              (offset + length chunk)
              (found ++ managed (parse_items chunk).0)
              (warnings ++ (parse_items chunk).1))
  unfolding fetch_loop
  next_page pages offset found warnings = rw (
    server_lem (suc c) limit raws offset,
    parse_page_body (length raws) limit (take (suc c) (drop offset raws)),
    fetch_loop,
  )

  -- What the chunk and the rest behind it give is what they give together.
  result-take-drop :
      (rest : List Json) (found : List FmcDiscoveredDevice) (warnings : List Warning)
      → let chunk = take (suc c) rest in
        result
          (found ++ managed (parse_items chunk).0)
          (warnings ++ (parse_items chunk).1)
          (drop (suc c) rest)
        ≡ result found warnings rest
  result-take-drop rest found warnings =
      let chunk = take (suc c) rest in
      let left = drop (suc c) rest in
      let whole_list = take-append-drop (suc c) rest in
      let ds =
        append_assoc found (managed (parse_items chunk).0) (managed (parse_items left).0)
        ∙ ap (◌++◌ found) (
            sym (managed-append (parse_items chunk).0 (parse_items left).0)
            ∙ ap managed (sym (parse_items-append chunk left))
            ∙ ap (λ l. managed (parse_items l).0) whole_list) in
      let ws =
        append_assoc warnings (parse_items chunk).1 (parse_items left).1
        ∙ ap (◌++◌ warnings)
            (sym (warnings-append chunk left) ∙ ap (λ l. (parse_items l).1) whole_list) in
      λ i. (devices (ds i), ws i)

  -- What the loop makes of the page in front of it.
  a_page :
      (rest : List Json) (found : List FmcDiscoveredDevice) (seen : ℕ) (warnings : List Warning)
      (following : Discovered × List Warning)
      → seen + length (drop (suc c) rest) ≡ length raws
      → (0 < length rest
          → following
            ≡ result
                (found ++ managed (parse_items (take (suc c) rest)).0)
                (warnings ++ (parse_items (take (suc c) rest)).1)
                (drop (suc c) rest))
      → after_page
          (server (suc c) limit raws)
          max_pages
          (read_page (length raws) limit (take (suc c) rest))
          (found ++ managed (parse_items (take (suc c) rest)).0)
          seen
          (warnings ++ (parse_items (take (suc c) rest)).1)
          following
        ≡ result found warnings rest
  unfolding after_page parse_items managed
  a_page [] found seen warnings following e q =
      ground (arith, append-nil found, append-nil warnings, below-whole seen (length raws))
  a_page (r ∷ rest) found seen warnings following e q =
      after_page_lem (take (suc c) (r ∷ rest)) (drop (suc c) (r ∷ rest)) _ seen _ following
        (omega arith) e (q (omega arith))
      ∙ result-take-drop (r ∷ rest) found warnings

  fetch_loop-server :
      (pages offset : ℕ) (found : List FmcDiscoveredDevice) (warnings : List Warning)
      → offset ≤ length raws
      → (length raws - offset) + suc c ≤ pages * suc c
      → fetch_loop (server (suc c) limit raws) max_pages pages offset offset found warnings
        ≡ result found warnings (drop offset raws)
  fetch_loop-server zero offset found warnings h k = absurd (omega arith)
  fetch_loop-server (suc pages) offset found warnings h k =
      let rest = drop offset raws in
      let chunk = take (suc c) rest in
      let left = drop (suc c) rest in
      let found' = found ++ managed (parse_items chunk).0 in
      let warnings' = warnings ++ (parse_items chunk).1 in
      let sizes : length chunk + length left ≡ length raws - offset =
        omega (arith, length-take-drop (suc c) rest, length-drop offset raws) in
      let ends : drop (offset + length chunk) raws ≡ left =
        sym (drop-drop offset (length chunk) raws) ∙ drop-length-take (suc c) rest in
      let count : length left + (offset + length chunk) ≡ length raws = omega arith in
      let less : length left ≡ length raws - offset - suc c =
        omega (arith, length-drop (suc c) rest, length-drop offset raws) in
      next_page pages offset found warnings
      ∙ a_page rest found (offset + length chunk) warnings
          (fetch_loop (server (suc c) limit raws) max_pages pages (offset + length chunk)
            (offset + length chunk) found' warnings')
          (omega arith)
          (λ some_left.
            fetch_loop-server pages (offset + length chunk) found' warnings' (omega arith) (
              omega (
                arith,
                pages_left pages c (length raws - offset)
                    (omega (arith, some_left, length-drop offset raws)) k,
              ))
            ∙ ap (result found' warnings') ends)

-- Against a server that holds a list of items, sends at most `suc c` of them from the requested
-- offset on and reports their true number, whatever page size it claims in `paging.limit`: discovery
-- ends without an error and gives every device of the list in its order, and its only warnings are
-- those of single items, if the pages allowed suffice for the list and one page more.
pub fetch_all_device_records-server :
    (max_pages c : ℕ) (limit : Json) (raws : List Json)
    → length raws + suc c ≤ max_pages * suc c
    → fetch_all_device_records (server (suc c) limit raws) max_pages
      ≡ (devices (managed (parse_items raws).0), (parse_items raws).1)
unfolding fetch_all_device_records
fetch_all_device_records-server max_pages c limit raws h =
    fetch_loop-server max_pages c limit raws max_pages 0 [] [] (omega arith) (omega arith)
