-- ===== src/SecurityDescriptors/Bounds.antt =====
-- The device type that leads one entry beyond the table of o_core/o_core/security_descr.c.
use windows_system_wide_filt.SecurityDescriptors.Setting.{Allocates}
use windows_system_wide_filt.Base.{ℕ, ◌≡◌, arith, false, none, refl, some}
use windows_system_wide_filt.SecurityDescriptors.{
  Descriptors, AccessMode, CallerBuffer, CheckRequest, Kernel, exchange, fill_descriptor,
  set_security_descriptor, is_place, sd_table_size,
}
use windows_system_wide_filt.SecurityDescriptors.Check.{place_of}
use windows_system_wide_filt.SecurityDescriptors.Roundtrip.{Accepted, set-eq}

module _ {D : Type 0} where
  -- The entry beyond the table is written. If the index that the device type leads to is the number of
  -- entries, the buffer passes the checks and the allocator gives memory, then `OcSdSetSecurityDescriptor`
  -- goes on to the exchange of the objects and accesses the entry that follows the last one of `g_SdTable`.
  pub set-beyond_table :
      (k : Kernel D) (request : CheckRequest) (b : CallerBuffer D) (sd_buffer_size : ℕ)
      (mode : AccessMode) (body : ℕ) (d : Descriptors D)
      → place_of request ≡ sd_table_size
      → Accepted k mode sd_buffer_size b
      → Allocates body d
      → set_security_descriptor k request.sd_type request.device_type b sd_buffer_size mode
          (some body)
          d
        ≡ none
  unfolding fill_descriptor exchange
  set-beyond_table k request b sd_buffer_size mode body d beyond accepted a =
      let outside : is_place (place_of request) request.sd_type ≡ false = ground arith in
      rw
        (
          set-eq k request b sd_buffer_size mode body d a (omega (arith, beyond)) accepted.small
              accepted.probed,
          accepted.copied,
          outside,
        )
        refl
