-- ===== src/Isa/Op.antt =====
-- The instructions that `ProcInstructionDef` declares (src/mips/instructions/processor_inst.cpp),
-- with their `ControlInstruction` flag.
use vemips.Base.{Bool, true, false}

pub data Op : Type 0 where
  add addiu move addiupc addu align aluipc and andi aui auipc bal balc bc beq bgez blezalc pop06 :
      Op
  bgtzalc pop07 pop10 pop30 blezc pop26 bgtzc pop27 beqzc jic bnezc jialc bgtz bitswap blez bltz :
      Op
  bne break_point cache cachee ginvi clo clz div modulo divu modu ehb ext ins j jal jalr jalr_hb :
      Op
  jr jr_hb lb lbe lbu lbue lh lhe lhu lhue ll lle llwp llwpe lsa lw lwe lwpc mul muh mulu muhu nal :
      Op
  nop nor or ori pause pref prefe rdhwr rotr rotrv sb sbe sc sce scwp scwpe sdbbp seb seh seleqz :
      Op
  selnez sh she sigrie sll sllv slt slti sltiu sltu sra srav srl srlv ssnop sub subu sw swe sync :
      Op
  synci syscall teq tge tgeu tlt tltu tne wsbh xor xori mfc0 mfhc0 mtc0 mthc0 eret eretnc mfc2 : Op
  mfhc2 mtc2 mthc2 wait : Op

unfoldable pub is_control : Op → Bool
is_control bal = true
is_control balc = true
is_control bc = true
is_control beq = true
is_control bgez = true
is_control blezalc = true
is_control pop06 = true
is_control bgtzalc = true
is_control pop07 = true
is_control pop10 = true
is_control pop30 = true
is_control blezc = true
is_control pop26 = true
is_control bgtzc = true
is_control pop27 = true
is_control beqzc = true
is_control jic = true
is_control bnezc = true
is_control jialc = true
is_control bgtz = true
is_control blez = true
is_control bltz = true
is_control bne = true
is_control j = true
is_control jal = true
is_control jalr = true
is_control jalr_hb = true
is_control jr = true
is_control jr_hb = true
is_control nal = true
is_control pause = true
is_control _ = false
