-- ===== src/Runtime/Persistence.antt =====
-- slp_runtime.cpp, ldn_control.cpp: the virtual address: drawn once, kept in a file, and read by the control plane.
use sys_slp_client.Base.{
  ℕ, ◌+◌, ◌*◌, ◌<◌, ◌≡◌, Bool, true, false, Option, none, some, List, ◌&&◌, if◌then◌else◌,
}
use sys_slp_client.Ldn.Control.{parse_ip}
use sys_slp_client.Runtime.VirtualIp.{
  is_reserved_virtual_octet, virtual_ip_text, read_persisted_virtual_octets, FileAnswers,
  get_virtual_ip,
}

-- Octets that a console may have.
pub record IsFree (octets : ℕ × ℕ) : Type 0 where
  pub low : octets.0 < 256
  pub low' : octets.1 < 256
  pub free : is_reserved_virtual_octet octets.0 octets.1 ≡ false

-- The text of an address 10.13.c.d that the program keeps free for consoles, and that the control plane reads as this address.
pub record IsVirtualIp (text : List ℕ) : Type 0 where
  pub octets : ℕ × ℕ
  pub are_free : IsFree octets
  pub written : text ≡ virtual_ip_text octets.0 octets.1
  pub read : parse_ip text ≡ 0x0A0D0000 + octets.0 * 256 + octets.1

-- A call that is repeated, whatever the file system, nifm and the random bytes are then, answers the same and leaves the same file.
abbrev pub Lasts : List ℕ × Option (List ℕ) → Type 0
Lasts r = (w : FileAnswers) (up : Bool) (draws : ℕ → ℕ × ℕ) → get_virtual_ip w r.1 up draws ≡ r

-- What a call with the network up answers, and the file that it leaves.
pub data Stable (w : FileAnswers) (file : Option (List ℕ)) : List ℕ × Option (List ℕ) → Type 0 where
  known :
      (octets : ℕ × ℕ)
      → read_persisted_virtual_octets file ≡ some octets
      → IsVirtualIp (virtual_ip_text octets.0 octets.1)
      → Lasts (virtual_ip_text octets.0 octets.1, file)
      → Stable w file (virtual_ip_text octets.0 octets.1, file)
  saved :
      (text : List ℕ) (file' : Option (List ℕ))
      → read_persisted_virtual_octets file ≡ none
      → w.created ≡ true
      → (w.opened && w.written) ≡ true
      → IsVirtualIp text
      → Lasts (text, file')
      → Stable w file (text, file')
  not_created :
      (text : List ℕ)
      → read_persisted_virtual_octets file ≡ none
      → w.created ≡ false
      → IsVirtualIp text
      → Stable w file (text, if w.deleted then none else file)
  not_written :
      (text : List ℕ)
      → read_persisted_virtual_octets file ≡ none
      → w.created ≡ true
      → (w.opened && w.written) ≡ false
      → IsVirtualIp text
      → Stable w file (text, some w.left)
