-- ===== src/Backend/Overrun.antt =====
-- The settlement of a booking that ran beyond the time that is booked on the contract
-- (backend/src/claw_api/chain/service.py).
use claw_compute.Escrow.Result.{Result}
use claw_compute.Escrow.Contract
use claw_compute.Escrow.Contract.{IsToken, Contract, is_open, settler_role, booking_settled}
use claw_compute.Escrow.Calls
use claw_compute.Escrow.Calls.{settle_grace_secs}
use claw_compute.Escrow.System
use claw_compute.Escrow.System.{Reach}
use claw_compute.Backend.Client
use claw_compute.Backend.Client.{TxResult, answered, new_events}
