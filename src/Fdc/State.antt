-- ===== src/Fdc/State.antt =====
-- src/fdc.c, src/fdc.h, src/fdc_registers.h: the controller's state and constants.
use ceda_cemu.Base.{ℕ, Bool, Option, List}
use ceda_cemu.Base.Int.{ℤ}

-- `fdc_status_t`
pub data FdcStatus : Type 0 where
  cmd args exec result : FdcStatus

-- The function pointers of an operation, by the function that they point to.
pub data PreExec : Type 0 where
  read_track specify write_data read_data recalibrate format_track seek : PreExec

pub data Exec : Type 0 where
  write_data read_data format_track : Exec

pub data PostExec : Type 0 where
  write_data read_data sense_interrupt format_track : PostExec

-- `fdc_operation_t`; `none` is NULL.
pub record Operation : Type 0 where
  pub cmd : ℕ
  pub args_len : ℕ
  pub result_len : ℕ
  pub pre_exec : Option PreExec
  pub exec : Option Exec
  pub post_exec : Option PostExec

-- `idr_t`
pub record Idr : Type 0 where
  pub phy_head : ℕ
  pub cylinder : ℕ
  pub head : ℕ
  pub record_no : ℕ

-- The arguments of a `fdc_read_write_t` behind the buffer.
pub record Request : Type 0 where
  pub unit_number : ℕ
  pub phy_head : Bool
  pub phy_track : ℕ
  pub head : Bool
  pub track : ℕ
  pub sector : ℕ

-- What such a callback returns, the bytes that it stored from the buffer's start on, and the
-- medium that it leaves.
pub record Reply (D : Type 0) : Type 0 where
  pub ret : ℤ
  pub bytes : List ℕ
  pub disk : D

-- `fdc_read_write_t`, over the state `D` of the media; a `none` buffer is NULL.
abbrev pub Callback : Type 0 → Type 0
Callback D = Option (List ℕ) → Request → D → Reply D

-- The static variables of fdc.c, with the media that the callbacks work on. The bytes of
-- `status_register` are the fields `msr` to `st3`.
pub record Fdc (D : Type 0) : Type 0 where
  pub fdc_status : FdcStatus
  pub fdc_currop : Option Operation
  pub command_args : ℕ
  pub rwcount : ℕ
  pub rwcount_max : ℕ
  pub args : List ℕ
  pub exec_buffer : List ℕ
  pub result : List ℕ
  pub tc_status : Bool
  pub int_status : Bool
  pub msr : ℕ
  pub st0 : ℕ
  pub st1 : ℕ
  pub st2 : ℕ
  pub st3 : ℕ
  pub track : List ℕ
  pub read_buffer_cb : Option (Callback D)
  pub write_buffer_cb : Option (Callback D)
  pub idr : Idr
  pub next_idr : Idr
  pub disk : D

-- `sizeof(exec_buffer)`
abbrev pub exec_buffer_size : ℕ
exec_buffer_size = 1024

-- Bits of the main status register.
abbrev pub fdc_st_rqm : ℕ
fdc_st_rqm = 0x80

abbrev pub fdc_st_dio : ℕ
fdc_st_dio = 0x40

abbrev pub fdc_st_exm : ℕ
fdc_st_exm = 0x20

abbrev pub fdc_st_cb : ℕ
fdc_st_cb = 0x10

-- FDC_ST_D3B | FDC_ST_D2B | FDC_ST_D1B | FDC_ST_D0B
abbrev pub fdc_st_busy : ℕ
fdc_st_busy = 0x0f

-- Bits of status register 0.
abbrev pub fdc_st0_ic : ℕ
fdc_st0_ic = 0xc0

abbrev pub fdc_st0_se : ℕ
fdc_st0_se = 0x20

abbrev pub fdc_st0_hd : ℕ
fdc_st0_hd = 0x04

abbrev pub fdc_st0_us : ℕ
fdc_st0_us = 0x03

-- Fields of the command byte.
abbrev pub fdc_cmd_command_bm : ℕ
fdc_cmd_command_bm = 0x1f

abbrev pub fdc_cmd_args_bm : ℕ
fdc_cmd_args_bm = 0xe0

abbrev pub fdc_cmd_args_mt_bm : ℕ
fdc_cmd_args_mt_bm = 0x80
