-- ===== src/S9pk/Header/Rejects.antt =====
-- What `deserialize` refuses, and that it always ends (backend/src/s9pk/header.rs).
use start_os.Common.{
  ℕ, zero, suc, ◌<◌, ◌≤◌, ◌≡◌, ◌≢◌, Option, none, some, [], ◌∷◌, ◌++◌, arith, length, take,
  length-drop, Result, ok, err, guard, ok_or, >>=-eq-ok, >>=-ne-err, guard-ne-err, ok_or-ne-err,
}
use start_os.Common.Map.{Map, insert}
use start_os.S9pk.Bytes.{
  Bytes, bytes_key, bytes_beq, incorrect_magic, unknown_version, invalid_pubkey, panicked,
  read_exact, from_be_bytes, Error, out_of_fuel,
}
use start_os.S9pk.Crypto.{Ed25519}
use start_os.S9pk.Header.{
  FileSection, Header, magic, version, deserialize_entry, deserialize_entries, from_table,
  toc_of_table, deserialize_toc, deserialize,
}

read_exact-length :
    (n : ℕ) (r bs rest : Bytes) → read_exact n r ≡ ok (bs, rest) → length rest ≤ length r
unfolding read_exact
read_exact-length n r bs rest e = ground (arith, length-drop n r)

-- Each entry takes at least its length byte from the reader.
deserialize_entry-length :
    (r r' : Bytes) (entry : Bytes × FileSection)
    → deserialize_entry r ≡ ok (some entry, r')
    → length r' < length r
unfolding deserialize_entry
deserialize_entry-length [] r' entry e = cc
deserialize_entry-length (n ∷ r) r' entry e =
    let (x, e₁, k₁) = >>=-eq-ok (read_exact n r) _ e in
    let (y, e₂, k₂) = >>=-eq-ok (read_exact 8 x.1) _ k₁ in
    let (z, e₃, k₃) = >>=-eq-ok (read_exact 8 y.1) _ k₂ in
    ground (
      arith,
      read_exact-length n r x.0 x.1 e₁,
      read_exact-length 8 x.1 y.0 y.1 e₂,
      read_exact-length 8 y.1 z.0 z.1 e₃,
    )

read_exact-fuel : (n : ℕ) (r : Bytes) → read_exact n r ≢ err out_of_fuel
unfolding read_exact
read_exact-fuel n r e = ground arith

deserialize_entry-fuel : (r : Bytes) → deserialize_entry r ≢ err out_of_fuel
unfolding deserialize_entry read_exact
deserialize_entry-fuel [] e = cc
deserialize_entry-fuel (n ∷ r) e = ground arith

-- the rest of a round, when the loop does not run out of fuel on a shorter reader
insert_and_go-fuel :
    (r : Bytes) (go : Bytes → Map Bytes FileSection → Result Error (Map Bytes FileSection))
    (table : Map Bytes FileSection)
    → ((r' : Bytes) (table' : Map Bytes FileSection)
        → length r' < length r
        → go r' table' ≢ err out_of_fuel)
    → (entry : Option (Bytes × FileSection)) (r' : Bytes) → deserialize_entry r ≡ ok (entry, r')
    → (elim entry as (λ _. Result Error (Map Bytes FileSection)) [
      | none ↦ ok table
      | some (label, s) ↦ go r' (insert label s table)
    ])
      ≢ err out_of_fuel
insert_and_go-fuel r go table ends none r' e = λ p. cc
insert_and_go-fuel r go table ends (some (label, s)) r' e =
    ends r' (insert label s table) (deserialize_entry-length r r' (label, s) e)

deserialize_entries-fuel :
    (fuel : ℕ) (r : Bytes) (table : Map Bytes FileSection)
    → length r < fuel
    → deserialize_entries fuel r table ≢ err out_of_fuel
unfolding deserialize_entries
deserialize_entries-fuel zero r table h = absurd (omega arith)
deserialize_entries-fuel (suc fuel) r table h =
    >>=-ne-err (deserialize_entry r) _ out_of_fuel (deserialize_entry-fuel r) (λ (entry, r') e.
      insert_and_go-fuel r (deserialize_entries fuel) table
        (λ r' table' shorter. deserialize_entries-fuel fuel r' table' (omega arith)) entry r' e)

toc_of_table-fuel : (table : Map Bytes FileSection) → toc_of_table table ≢ err out_of_fuel
unfolding toc_of_table from_table
toc_of_table-fuel table e = ground arith

deserialize_toc-fuel : (r : Bytes) → deserialize_toc r ≢ err out_of_fuel
unfolding deserialize_toc
deserialize_toc-fuel r =
    >>=-ne-err (read_exact 4 r) _ out_of_fuel (read_exact-fuel 4 r) (λ (len_bytes, r₁) _.
      let body = take (from_be_bytes len_bytes) r₁ in
      >>=-ne-err (deserialize_entries (suc (length body)) body []) _ out_of_fuel
        (deserialize_entries-fuel (suc (length body)) body [] (omega arith))
        (λ table _.
          >>=-ne-err (toc_of_table table) _ out_of_fuel (toc_of_table-fuel table) (λ toc _ p. cc)))

-- Reading a header ends on every input: the loop over the entries has enough fuel.
pub deserialize-fuel : (ed : Ed25519) (r : Bytes) → deserialize ed r ≢ err out_of_fuel
unfolding deserialize
deserialize-fuel ed r =
    >>=-ne-err (read_exact 2 r) _ out_of_fuel (read_exact-fuel 2 r) (λ (magic_bytes, r₁) _.
      >>=-ne-err (guard (bytes_beq magic_bytes magic) incorrect_magic) _ out_of_fuel
        (guard-ne-err _ _ _ (λ p. cc))
        (λ _ _.
          >>=-ne-err (read_exact 1 r₁) _ out_of_fuel (read_exact-fuel 1 r₁)
            (λ (version_bytes, r₂) _.
              >>=-ne-err (guard (bytes_beq version_bytes (version ∷ [])) unknown_version) _
                out_of_fuel (guard-ne-err _ _ _ (λ p. cc))
                (λ _ _.
                  >>=-ne-err (read_exact 32 r₂) _ out_of_fuel (read_exact-fuel 32 r₂)
                    (λ (key, r₃) _.
                      >>=-ne-err (ok_or (ed.pubkey_from_bytes key) invalid_pubkey) _ out_of_fuel
                        (ok_or-ne-err (ed.pubkey_from_bytes key) _ _ (λ p. cc))
                        (λ _ _.
                          >>=-ne-err (read_exact 64 r₃) _ out_of_fuel (read_exact-fuel 64 r₃)
                            (λ (sig, r₄) _.
                              >>=-ne-err (ok_or (ed.signature_from_bytes sig) panicked) _
                                out_of_fuel
                                (ok_or-ne-err (ed.signature_from_bytes sig) _ _ (λ p. cc))
                                (λ _ _.
                                  >>=-ne-err (deserialize_toc r₄) _ out_of_fuel
                                    (deserialize_toc-fuel r₄) (λ _ _ p. cc)))))))))

-- Whatever is read as a header begins with the magic bytes and the version.
pub deserialize-magic :
    (ed : Ed25519) (r rest : Bytes) (h : Header ed)
    → deserialize ed r ≡ ok (h, rest)
    → take 3 r ≡ magic ++ version ∷ []
unfolding deserialize read_exact
deserialize-magic ed [] rest h e = cc
deserialize-magic ed (a ∷ []) rest h e = cc
deserialize-magic ed (a ∷ b ∷ []) rest h e = ground arith
deserialize-magic ed (a ∷ b ∷ c ∷ r) rest h e = ground arith
