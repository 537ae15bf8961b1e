-- ===== src/Loader/Prepare/Files.antt =====
-- crates/uefi-loader/src/main.rs: the end of `read_bounded_file`.
use polytope_os.Base.{ℕ, ◌+◌, ◌≤◌, ◌≡◌, arith, List, [], ◌++◌, length, length-append, Bool}
use polytope_os.Base.{some, Result, ok, ok_or, ok_or-eq-ok, reject, not, >>=-eq-ok}
use polytope_os.Base.Chunks.{Reads}
use polytope_os.Base.Chunks.Ends.{IsWhole, loop_ends}
use polytope_os.Loader.Error
use polytope_os.Loader.Error.{LoaderError}
use polytope_os.Loader.Firmware.{Directory, Handle}
use polytope_os.Loader.Prepare.{take_chunk, read_file, chunk_length_of, read_bounded_file}

module _ (reserve : ℕ → ℕ → Bool) where
  take_chunk-takes :
      (chunk_length maximum : ℕ) (limit_error : LoaderError) (bytes chunk longer : List ℕ)
      → take_chunk reserve chunk_length maximum limit_error bytes chunk ≡ ok longer
      → (longer ≡ bytes ++ chunk) × (length longer ≤ maximum)
  unfolding take_chunk
  take_chunk-takes chunk_length maximum limit_error bytes chunk longer e =
      ground (arith, length-append bytes chunk)

  read_file_ends :
      (reads : Reads) (maximum : ℕ) (limit_error : LoaderError)
      → (result : Result LoaderError (List ℕ)) × (read_file reserve reads maximum limit_error
          ≡ some result)
        × ((out : List ℕ) → result ≡ ok out → IsWhole reads maximum 0 [] out)
  unfolding read_file
  read_file_ends reads maximum limit_error =
      loop_ends (take_chunk reserve (chunk_length_of maximum) maximum limit_error) Error.file_read
        maximum (take_chunk-takes (chunk_length_of maximum) maximum limit_error) reads (maximum + 2)
        0 [] (omega arith) (omega arith)

  -- The file that was read at a path: it opens as a regular file, and the result is all of it.
  pub record IsRead (root : Directory) (path : List ℕ) (maximum : ℕ) (out : List ℕ) : Type 0 where
    pub handle : Handle
    pub reads : Reads
    pub opened : root path ≡ some handle
    pub regular : handle.into_regular_file ≡ some reads
    pub whole : IsWhole reads maximum 0 [] out

  pub read_bounded_file-IsRead :
      (root : Directory) (path : List ℕ) (maximum : ℕ) (limit_error : LoaderError) (out : List ℕ)
      → read_bounded_file reserve root path maximum limit_error ≡ ok out
      → IsRead root path maximum out
  unfolding read_bounded_file
  read_bounded_file-IsRead root path maximum limit_error out e =
      let (handle, opened, e_handle) = >>=-eq-ok (ok_or (root path) Error.file_read) _ e in
      let (reads, regular, e_reads) =
        >>=-eq-ok (ok_or handle.into_regular_file Error.file_read) _ e_handle in
      let (_, _, e_loop) =
        >>=-eq-ok (reject (not (reserve 0 (chunk_length_of maximum))) Error.allocation) _ e_reads in
      let (result, runs, whole) = read_file_ends reads maximum limit_error in
      record {
        handle = handle;
        reads = reads;
        opened = ok_or-eq-ok (root path) Error.file_read opened;
        regular = ok_or-eq-ok handle.into_regular_file Error.file_read regular;
        whole = whole out (rw runs at e_loop);
      }
